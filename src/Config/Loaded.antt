-- ===== src/Config/Loaded.antt =====
-- A configuration that `load` returns, and what the scope check makes of it.
use lumen_mcp_server.Base.{refl, inl, inr}
use lumen_mcp_server.Authorize
use lumen_mcp_server.Authorize.{check}
use lumen_mcp_server.Authorize.Spec.{Holds, MeetsRequired}
use lumen_mcp_server.Authorize.Laws.{check-allowed_iff}
use lumen_mcp_server.Config.{
  Result, String, List, Config, apply_defaults, validate, accept, load, list_or,
}
use lumen_mcp_server.Config.Laws.{IsValid, validate-IsValid}
use lumen_mcp_server.Base.{
  inr, inl, Option-cases, err, Any, trim_space, ◌↔◌, true, All, ◌∷◌, ok, ◌≡◌, [], ◌≢◌,
}

-- internal/bootstrap/app.go: the scope rules of a configuration
abbrev pub authorize_of : Config → Authorize.Service
authorize_of c = record {
  tool_scope_map = c.auth.tool_scope_map;
  required_scopes = c.auth.required_scopes;
}

list_or-full : (d xs : List String) → d ≢ [] → list_or d xs ≢ []
list_or-full d [] full = full
list_or-full d (x ∷ xs) full = λ p. cc p

-- Every required scope is held, none is blank, and there is one.
first_required :
    (rs scopes : List String)
    → rs ≢ []
    → All (λ r. trim_space r ≢ "") rs
    → MeetsRequired rs scopes
    → (r : String) × Any (λ x. r ≡ x) rs × Holds scopes (trim_space r)
first_required [] scopes full named met = absurd (full refl)
first_required (r ∷ rs) scopes full (named, _) (inl blank, _) = absurd (named blank)
first_required (r ∷ rs) scopes full named (inr held, _) = (r, inl refl, held)

loaded-required : (raw c : Config) → c ≡ apply_defaults raw → c.auth.required_scopes ≢ []
unfolding apply_defaults
loaded-required raw c same =
    rw same (list_or-full ("mcp:tools" ∷ []) raw.auth.required_scopes (λ p. cc p))

module _ (quote : String → String) where
  -- A file is accepted exactly if it can be read and, with the defaults, makes a valid configuration,
  -- which is what is returned.
  pub load-ok_iff :
      (file : Result String Config) (c : Config)
      → (load quote file ≡ ok c)
        ↔ ((raw : Config) × (file ≡ ok raw) × (c ≡ apply_defaults raw) × IsValid c)
  unfolding load accept
  load-ok_iff (err e) c = (λ h. cc h, λ (raw, h, _, _). cc h)
  load-ok_iff (ok raw) c = elim (Option-cases (validate quote (apply_defaults raw))) [
    | inl fine ↦ (
      λ h.
          let same : c ≡ apply_defaults raw = cc (rw (fine, load, accept) at h) in
          (raw, refl, same, rw same ((validate-IsValid quote (apply_defaults raw)).0 fine)),
      λ (raw', read, same, valid). rw fine (cc (read, same)),
    )
    | inr (e, bad) ↦ (
      λ h. cc (rw (bad, load, accept) at h),
      λ (raw', read, same, valid). cc (bad, read, (validate-IsValid quote c).1 valid, same),
    )
  ]

  -- Under a configuration that was loaded, a token may call a tool only if it holds one of the
  -- configured required scopes; a token with no scopes may call none.
  pub load-Holds :
      (file : Result String Config) (c : Config) (scopes : List String) (tool_name : String)
      → load quote file ≡ ok c
      → (check (authorize_of c) scopes tool_name).allowed ≡ true
      → (r : String) × Any (λ x. r ≡ x) c.auth.required_scopes × Holds scopes (trim_space r)
  unfolding apply_defaults
  load-Holds file c scopes tool_name loaded allowed =
      let (raw, _, same, valid) = (load-ok_iff file c).0 loaded in
      let (met, _) = (check-allowed_iff (authorize_of c) scopes tool_name).0 allowed in
      first_required c.auth.required_scopes scopes (loaded-required raw c same) valid.required met
