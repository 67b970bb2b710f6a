-- ===== src/Authorize/Reasons.antt =====
-- What a denial says.
use lumen_mcp_server.Base.{
  String, ◌≡◌, ◌≢◌, refl, true, false, none, some, List, [], ◌∷◌, ◌++◌, ◌⊎◌, inl, inr, lookup,
  trim_space, arith, eq_iff, ◌<>◌, ap, Bool-cases, Option-cases, ◌==◌,
}
use lumen_mcp_server.Domain.{Decision}
use lumen_mcp_server.Authorize.{Service, missing, has_any_scope, check_required, check_tool, check}
use lumen_mcp_server.Authorize.Spec.{Holds, IsAdmin, MeetsRequired}
use lumen_mcp_server.Authorize.Laws.{Holds-iff, IsAdmin-or_Holds_iff, check_required_iff}

-- A required scope that is not held, with every one before it held or blank.
pub record FirstUnmet (required scopes : List String) (name : String) : Type 0 where
  pub before : List String
  pub entry : String
  pub after : List String
  pub listed : required ≡ before ++ entry ∷ after
  pub met : MeetsRequired before scopes
  pub named : trim_space entry ≡ name
  pub not_blank : name ≢ ""
  pub not_held : ¬ Holds scopes name

-- The reasons for a denial, each with its text.
pub data Denial (s : Service) (scopes : List String) (tool_name : String) : String → Type 0 where
  unmet :
      {name : String}
      → FirstUnmet s.required_scopes scopes name
      → Denial s scopes tool_name ("missing required scope: " <> name)
  unregistered :
      MeetsRequired s.required_scopes scopes
      → lookup tool_name s.tool_scope_map ≡ none
      → Denial s scopes tool_name "tool not registered in auth.tool_scope_map"
  lacking :
      {name : String}
      → MeetsRequired s.required_scopes scopes
      → lookup tool_name s.tool_scope_map ≡ some name
      → ¬ IsAdmin scopes
      → ¬ Holds scopes name
      → Denial s scopes tool_name ("missing required scope: " <> name)

FirstUnmet-cons :
    (r : String) (rs scopes : List String) {name : String}
    → (trim_space r ≡ "") ⊎ Holds scopes (trim_space r)
    → FirstUnmet rs scopes name
    → FirstUnmet (r ∷ rs) scopes name
FirstUnmet-cons r rs scopes here u = record {
  before = r ∷ u.before;
  entry = u.entry;
  after = u.after;
  listed = ap (λ l. r ∷ l) u.listed;
  met = (here, u.met);
  named = u.named;
  not_blank = u.not_blank;
  not_held = u.not_held;
}

FirstUnmet-head :
    (r : String) (rs scopes : List String)
    → trim_space r ≢ ""
    → ¬ Holds scopes (trim_space r)
    → FirstUnmet (r ∷ rs) scopes (trim_space r)
FirstUnmet-head r rs scopes nonblank unheld = record {
  before = [];
  entry = r;
  after = rs;
  listed = refl;
  met = tt;
  named = refl;
  not_blank = nonblank;
  not_held = unheld;
}

check_required-FirstUnmet :
    (rs scopes : List String) (d : Decision)
    → check_required rs scopes ≡ some d
    → (name : String) × FirstUnmet rs scopes name × (d ≡ missing name)
unfolding check_required
check_required-FirstUnmet [] scopes d e = cc
check_required-FirstUnmet (r ∷ rs) scopes d e = elim (Bool-cases (trim_space r == "")) [
  | inl blank ↦
      let (name, u, same) = check_required-FirstUnmet rs scopes d (rw blank at e) in
      (name, FirstUnmet-cons r rs scopes (inl ((eq_iff (trim_space r) "").0 blank)) u, same)
  | inr full ↦ elim (Bool-cases (has_any_scope scopes (trim_space r) false)) [
    | inl held ↦
        let (name, u, same) = check_required-FirstUnmet rs scopes d (rw (full, held) at e) in
        (name, FirstUnmet-cons r rs scopes (inr ((Holds-iff scopes (trim_space r)).0 held)) u, same)
    | inr unheld ↦ (
      trim_space r,
      FirstUnmet-head r rs scopes (λ p. cc ((eq_iff (trim_space r) "").1 p))
          (λ h. cc ((Holds-iff scopes (trim_space r)).1 h)),
      ground arith,
    )
  ]
]

check_tool-Denial :
    (s : Service) (scopes : List String) (tool_name : String)
    → MeetsRequired s.required_scopes scopes
    → (check_tool (lookup tool_name s.tool_scope_map) scopes).allowed ≡ false
    → Denial s scopes tool_name (check_tool (lookup tool_name s.tool_scope_map) scopes).reason
unfolding check_tool
check_tool-Denial s scopes tool_name met h =
    elim (Option-cases (lookup tool_name s.tool_scope_map)) [
      | inl unknown ↦ rw unknown (unregistered met unknown)
      | inr (name, found) ↦ elim (Bool-cases (has_any_scope scopes name true)) [
        | inl held ↦ cc (rw (found, held) at h)
        | inr unheld ↦
            rw (found, unheld)
              (lacking met found (λ a. cc ((IsAdmin-or_Holds_iff scopes name).1 (inl a)))
                (λ a. cc ((IsAdmin-or_Holds_iff scopes name).1 (inr a))))
      ]
    ]

-- A denial's reason names the first required scope that is not held; if all are held, it says that
-- the tool is not registered, or names the tool's scope, which then is not held and the token is no
-- administrator's.
pub check-Denial :
    (s : Service) (scopes : List String) (tool_name : String)
    → (check s scopes tool_name).allowed ≡ false
    → Denial s scopes tool_name (check s scopes tool_name).reason
unfolding check
check-Denial s scopes tool_name h = elim (Option-cases (check_required s.required_scopes scopes)) [
  | inl passed ↦
      rw (passed, check)
        (check_tool-Denial s scopes tool_name
          ((check_required_iff s.required_scopes scopes).0 passed) (rw (passed, check) at h))
  | inr (d, denied) ↦
      let (name, u, same) = check_required-FirstUnmet s.required_scopes scopes d denied in
      rw (denied, check, same) (unmet u)
]
