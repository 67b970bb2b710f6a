-- ===== src/Config/Laws.antt =====
-- Defaults and validation of the configuration.
use lumen_mcp_server.Config.{
  validate, first_error, String, List, ℤ, Config, text_or, duration_or, list_or, apply_defaults,
  refuse_if, check_entries, check_scopes, check_scope_map, check_audit, AuditConfig,
}
use lumen_mcp_server.Base.{
  inr, inl, some, pos, negsuc, zero, suc, ◌⊎◌, refl, trim_space, ◌↔◌, ◌∷◌, All, Option, eq_iff,
  false, ◌==◌, [], Bool, arith, none, ◌≢◌, ◌≡◌,
}

text_or-twice : (d x : String) → text_or d (text_or d x) ≡ text_or d x
unfolding text_or
text_or-twice d x = ground (arith, eq_iff x "")

duration_or-twice : (d x : ℤ) → duration_or d (duration_or d x) ≡ duration_or d x
duration_or-twice (pos zero) (pos zero) = refl
duration_or-twice (pos (suc n)) (pos zero) = refl
duration_or-twice (negsuc n) (pos zero) = refl
duration_or-twice d (pos (suc n)) = refl
duration_or-twice d (negsuc n) = refl

list_or-twice : (d xs : List String) → list_or d (list_or d xs) ≡ list_or d xs
list_or-twice [] [] = refl
list_or-twice (y ∷ ys) [] = refl
list_or-twice d (x ∷ xs) = refl

-- Filling in the defaults a second time changes nothing.
pub apply_defaults-twice : (c : Config) → apply_defaults (apply_defaults c) ≡ apply_defaults c
unfolding apply_defaults
apply_defaults-twice c = simp (text_or-twice, duration_or-twice, list_or-twice)

-- The backend is known, and has the place that it needs.
abbrev pub HasBackend : AuditConfig → Type 0
HasBackend a =
    (a.backend ≡ "stdout")
    ⊎ (((a.backend ≡ "sqlite") × (trim_space a.sqlite_path ≢ ""))
        ⊎ ((a.backend ≡ "postgres") × (trim_space a.postgres_url ≢ "")))

-- What a valid configuration has.
pub record IsValid (c : Config) : Type 0 where
  pub issuer : c.oauth.issuer ≢ ""
  pub audience : c.oauth.audience ≢ ""
  pub jwks_url : c.oauth.jwks_url ≢ ""
  pub base_url : c.gateway.base_url ≢ ""
  pub admin_api_key : c.gateway.admin_api_key ≢ ""
  pub tools : c.auth.tool_scope_map ≢ []
  pub entries : All (λ e. (trim_space e.0 ≢ "") × (trim_space e.1 ≢ "")) c.auth.tool_scope_map
  pub required : All (λ scope. trim_space scope ≢ "") c.auth.required_scopes
  pub backend : HasBackend c.audit

module _ (quote : String → String) where
  passed :
      (bad : Bool) (e : String) (rest : Option String)
      → (refuse_if bad e rest ≡ none) ↔ ((bad ≡ false) × (rest ≡ none))
  unfolding refuse_if
  passed bad e rest = ground arith

  eq_false : (a b : String) → ((a == b) ≡ false) ↔ (a ≢ b)
  eq_false a b = ground (arith, eq_iff a b)

  check_entries_iff :
      (entries : List (String × String))
      → (check_entries quote entries ≡ none)
        ↔ All (λ e. (trim_space e.0 ≢ "") × (trim_space e.1 ≢ "")) entries
  unfolding check_entries refuse_if
  check_entries_iff [] = (λ h. tt, λ h. refl)
  check_entries_iff ((tool, scope) ∷ entries) = ground (
    arith,
    check_entries_iff entries,
    eq_false (trim_space tool) "",
    eq_false (trim_space scope) "",
  )

  check_scopes_iff :
      (scopes : List String)
      → (check_scopes quote scopes ≡ none) ↔ All (λ scope. trim_space scope ≢ "") scopes
  unfolding check_scopes refuse_if
  check_scopes_iff [] = (λ h. tt, λ h. refl)
  check_scopes_iff (scope ∷ scopes) =
      ground (arith, check_scopes_iff scopes, eq_false (trim_space scope) "")

  first_error_iff :
      (a b : Option String) → (first_error quote a b ≡ none) ↔ ((a ≡ none) × (b ≡ none))
  first_error_iff none b = ground arith
  first_error_iff (some e) b = ground arith

  check_scope_map_iff :
      (entries : List (String × String))
      → (check_scope_map quote entries ≡ none)
        ↔ ((entries ≢ []) × All (λ e. (trim_space e.0 ≢ "") × (trim_space e.1 ≢ "")) entries)
  unfolding check_scope_map
  check_scope_map_iff [] = (λ h. cc, λ (h, _). absurd (h refl))
  check_scope_map_iff (e ∷ entries) = (
    λ h. (λ p. cc p, (check_entries_iff (e ∷ entries)).0 h),
    λ (_, h). (check_entries_iff (e ∷ entries)).1 h,
  )

  check_audit-HasBackend : (a : AuditConfig) → check_audit quote a ≡ none → HasBackend a
  unfolding check_audit refuse_if
  check_audit-HasBackend a h = ground (
    arith,
    eq_iff a.backend "stdout",
    eq_iff a.backend "sqlite",
    eq_iff a.backend "postgres",
    eq_false (trim_space a.sqlite_path) "",
    eq_false (trim_space a.postgres_url) "",
  )

  HasBackend-check_audit : (a : AuditConfig) → HasBackend a → check_audit quote a ≡ none
  unfolding check_audit refuse_if
  HasBackend-check_audit a (inl h) = rw h refl
  HasBackend-check_audit a (inr (inl (h, place))) =
      rw (h, (eq_false (trim_space a.sqlite_path) "").1 place) refl
  HasBackend-check_audit a (inr (inr (h, place))) =
      rw (h, (eq_false (trim_space a.postgres_url) "").1 place) refl

  -- Validation accepts exactly the configurations with an issuer, an audience, the addresses of the key
  -- server and of the gateway, an API key, tools whose names and scopes are not blank, required scopes
  -- that are not blank, and a known audit backend with the path or address it needs.
  pub validate-IsValid : (c : Config) → (validate quote c ≡ none) ↔ IsValid c
  unfolding validate refuse_if
  validate-IsValid c = (
    λ h.
        let (issuer, h1) = (passed (c.oauth.issuer == "") _ _).0 h in
        let (audience, h2) = (passed (c.oauth.audience == "") _ _).0 h1 in
        let (jwks_url, h3) = (passed (c.oauth.jwks_url == "") _ _).0 h2 in
        let (base_url, h4) = (passed (c.gateway.base_url == "") _ _).0 h3 in
        let (key, h5) = (passed (c.gateway.admin_api_key == "") _ _).0 h4 in
        let (entries, h6) =
          (first_error_iff (check_scope_map quote c.auth.tool_scope_map) _).0 h5 in
        let (scopes, audit) =
          (first_error_iff (check_scopes quote c.auth.required_scopes) _).0 h6 in
        let (tools, sound) = (check_scope_map_iff c.auth.tool_scope_map).0 entries in
        record {
          issuer = (eq_false c.oauth.issuer "").0 issuer;
          audience = (eq_false c.oauth.audience "").0 audience;
          jwks_url = (eq_false c.oauth.jwks_url "").0 jwks_url;
          base_url = (eq_false c.gateway.base_url "").0 base_url;
          admin_api_key = (eq_false c.gateway.admin_api_key "").0 key;
          tools = tools;
          entries = sound;
          required = (check_scopes_iff c.auth.required_scopes).0 scopes;
          backend = check_audit-HasBackend c.audit audit;
        },
    λ ok.
        rw
          (
            (eq_false c.oauth.issuer "").1 ok.issuer,
            (eq_false c.oauth.audience "").1 ok.audience,
            (eq_false c.oauth.jwks_url "").1 ok.jwks_url,
            (eq_false c.gateway.base_url "").1 ok.base_url,
            (eq_false c.gateway.admin_api_key "").1 ok.admin_api_key,
            (check_scope_map_iff c.auth.tool_scope_map).1 (ok.tools, ok.entries),
            (check_scopes_iff c.auth.required_scopes).1 ok.required,
          )
          (HasBackend-check_audit c.audit ok.backend),
  )
