-- ===== src/Http/Admission.antt =====
-- Who passes `requireAuthorized`.
use lumen_mcp_server.Base.{refl, Option, sym, [], ◌∷◌, inl, inr, none, some, ok, err}
use lumen_mcp_server.Domain.{Claims}
use lumen_mcp_server.Ports.{TokenVerifier}
use lumen_mcp_server.Http.{
  List, Result, trim_space, Request, Handler, has_scope, first_missing, check_scopes, check_bearer,
  with_verifier, require_authorized,
}
use lumen_mcp_server.Base.{
  eq_iff, inr, ◌==◌, arith, inl, ◌∷◌, err, equal_fold, Option-cases, ◌⊎◌, Bool-cases, true, some,
  none, Any, All, ◌↔◌, ◌≢◌, ok, String, ◌≡◌,
}

-- One of the scopes, trimmed, is the required one or an administrator's, up to case.
abbrev pub Grants : List String → String → Type 0
Grants scopes required =
    Any
      (λ s.
        (equal_fold (trim_space s) "admin:*" ≡ true) ⊎ (equal_fold (trim_space s) required ≡ true))
      scopes

-- Every required scope, blank ones aside, is granted.
abbrev pub GrantsAll : List String → List String → Type 0
GrantsAll required scopes = All (λ r. (trim_space r ≡ "") ⊎ Grants scopes (trim_space r)) required

has_scope-Grants :
    (scopes : List String) (required : String)
    → (has_scope scopes required ≡ true) ↔ Grants scopes required
unfolding has_scope
has_scope-Grants [] required = (λ h. cc, λ h. absurd h)
has_scope-Grants (s ∷ ss) required = ground (arith, has_scope-Grants ss required)

first_missing-GrantsAll :
    (rs scopes : List String) → (first_missing rs scopes ≡ none) ↔ GrantsAll rs scopes
unfolding first_missing
first_missing-GrantsAll [] scopes = (λ h. tt, λ h. refl)
first_missing-GrantsAll (r ∷ rs) scopes = ground (
  arith,
  first_missing-GrantsAll rs scopes,
  has_scope-Grants scopes (trim_space r),
  eq_iff (trim_space r) "",
)

module _ {V G A C Args Payload : Type 0} (h : Handler V G A C Args Payload) (r : Request Args) where
  -- A request that is let in: it carries a bearer text, there is a verifier, which accepts the text,
  -- and every required scope is granted.
  pub record Admitted (st : V) (claims : Claims) : Type 0 where
    pub present : trim_space r.authorization ≢ ""
    pub verifier : TokenVerifier V
    pub configured : h.verifier ≡ some verifier
    pub verified : (verifier.verify_bearer st (trim_space r.authorization)).0 ≡ ok claims
    pub granted : GrantsAll h.authorize.required_scopes claims.scopes

  check_scopes_iff :
      (found claims : Claims)
      → (check_scopes h found ≡ ok claims)
        ↔ ((found ≡ claims) × GrantsAll h.authorize.required_scopes claims.scopes)
  unfolding check_scopes
  check_scopes_iff found claims =
      elim (Option-cases (first_missing h.authorize.required_scopes found.scopes)) [
        | inl fine ↦ (
          λ e.
              let same : found ≡ claims = cc (rw (fine, check_scopes) at e) in
              (
                same,
                rw (sym same)
                    ((first_missing-GrantsAll h.authorize.required_scopes found.scopes).0 fine),
              ),
          λ (same, g). rw (check_scopes, fine) (cc same),
        )
        | inr (s, gone) ↦ (
          λ e. cc (rw (gone, check_scopes) at e),
          λ (same, g).
              cc (same, (first_missing-GrantsAll h.authorize.required_scopes claims.scopes).1 g),
        )
      ]

  check_bearer_iff :
      (v : Result String Claims) (claims : Claims)
      → (check_bearer h v ≡ ok claims)
        ↔ ((v ≡ ok claims) × GrantsAll h.authorize.required_scopes claims.scopes)
  unfolding check_bearer
  check_bearer_iff (err e) claims = ground arith
  check_bearer_iff (ok found) claims = ground (arith, check_scopes_iff found claims)

  with_verifier-Admitted :
      (o : Option (TokenVerifier V)) (st : V) (claims : Claims)
      → h.verifier ≡ o
      → trim_space r.authorization ≢ ""
      → ((with_verifier h o (trim_space r.authorization) st).0 ≡ ok claims) ↔ Admitted st claims
  unfolding with_verifier
  with_verifier-Admitted none st claims same full = (λ e. cc e, λ a. cc (same, a.configured))
  with_verifier-Admitted (some v) st claims same full =
      let both = check_bearer_iff (v.verify_bearer st (trim_space r.authorization)).0 claims in
      (
        λ e. record {
          present = full;
          verifier = v;
          configured = same;
          verified = (both.0 e).0;
          granted = (both.0 e).1;
        },
        λ a.
            let one : a.verifier ≡ v = cc (same, a.configured) in
            both.1 (rw one at a.verified, a.granted),
      )

  -- The administration handlers let a request in exactly if it carries a bearer text that the
  -- configured verifier accepts, with claims that grant every required scope that is not blank.
  pub require_authorized-Admitted :
      (st : V) (claims : Claims) → ((require_authorized h r st).0 ≡ ok claims) ↔ Admitted st claims
  unfolding require_authorized with_verifier
  require_authorized-Admitted st claims = elim (Bool-cases (trim_space r.authorization == "")) [
    | inl blank ↦ (
      λ e. cc (rw (blank, require_authorized) at e),
      λ a. absurd (a.present ((eq_iff (trim_space r.authorization) "").0 blank)),
    )
    | inr full ↦ rw full (
        with_verifier-Admitted h.verifier st claims refl
          (λ p. cc (full, (eq_iff (trim_space r.authorization) "").1 p)))
  ]
