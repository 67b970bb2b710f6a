-- ===== src/Authorize/Laws.antt =====
-- The scope check decides the relations of Spec.
use lumen_mcp_server.Base.{
  String, ◌≡◌, refl, Bool, true, false, none, some, List, [], ◌∷◌, Any, any, ◌⊎◌, inl, inr, ◌↔◌,
  lookup, arith, eq_iff, trim_space, equal_fold, lower_eq, Bool-cases, Option-cases,
}
use lumen_mcp_server.Domain.{Decision}
use lumen_mcp_server.Authorize.{
  Service, legacy_read, legacy_write, has_scope, has_any_scope, check_required, check_tool, check,
}
use lumen_mcp_server.Authorize.Spec.{
  Satisfies, exact, reads, writes, Holds, IsAdmin, MeetsRequired, MeetsTool,
}

any_iff : {A : Type 0} (p : A → Bool) (xs : List A) → (any p xs ≡ true) ↔ Any (λ x. p x ≡ true) xs
any_iff p [] = (λ h. cc, λ h. absurd h)
any_iff p (x ∷ xs) = ground (arith, any_iff p xs)

-- No text has both lower forms.
not_both : (s : String) → lower_eq s "gateway:write" ≡ true → lower_eq s "read" ≡ false
unfolding lower_eq
not_both String.[] w = refl
not_both (String.◌∷◌ c s) w = ground arith

has_scope_iff :
    (required actual : String) → (has_scope required actual ≡ true) ↔ Satisfies required actual
unfolding has_scope
has_scope_iff required actual = (sound, complete)
  where
    sound : has_scope required actual ≡ true → Satisfies required actual
    sound h = elim (Bool-cases (equal_fold required actual)) [
      | inl e ↦ exact e
      | inr n ↦ elim (Bool-cases (lower_eq (trim_space required) "read")) [
        | inl r ↦ reads r ((any_iff (equal_fold actual) legacy_read).0 (ground arith))
        | inr w ↦
            writes (ground arith) ((any_iff (equal_fold actual) legacy_write).0 (ground arith))
      ]
    ]

    complete : Satisfies required actual → has_scope required actual ≡ true
    complete (exact e) = rw e
    complete (reads r a) = ground (arith, (any_iff (equal_fold actual) legacy_read).1 a)
    complete (writes r a) =
        ground
          (arith, not_both (trim_space required) r, (any_iff (equal_fold actual) legacy_write).1 a)

pub Holds-iff :
    (scopes : List String) (required : String)
    → (has_any_scope scopes required false ≡ true) ↔ Holds scopes required
unfolding has_any_scope
Holds-iff [] required = (λ h. cc, λ h. absurd h)
Holds-iff (scope ∷ scopes) required =
    ground (arith, has_scope_iff required scope, Holds-iff scopes required)

pub IsAdmin-or_Holds_iff :
    (scopes : List String) (required : String)
    → (has_any_scope scopes required true ≡ true) ↔ (IsAdmin scopes ⊎ Holds scopes required)
unfolding has_any_scope
IsAdmin-or_Holds_iff [] required = (λ h. cc, elim [ inl h ↦ absurd h | inr h ↦ absurd h ])
IsAdmin-or_Holds_iff (scope ∷ scopes) required =
    ground (arith, has_scope_iff required scope, IsAdmin-or_Holds_iff scopes required)

pub check_required_iff :
    (rs scopes : List String) → (check_required rs scopes ≡ none) ↔ MeetsRequired rs scopes
unfolding check_required
check_required_iff [] scopes = (λ h. tt, λ h. refl)
check_required_iff (r ∷ rs) scopes =
    ground (
      arith,
      eq_iff (trim_space r) "",
      Holds-iff scopes (trim_space r),
      check_required_iff rs scopes,
    )

check_required-denies :
    (rs scopes : List String) (d : Decision) → check_required rs scopes ≡ some d → d.allowed ≡ false
unfolding check_required
check_required-denies [] scopes d h = cc
check_required-denies (r ∷ rs) scopes d h = ground (arith, check_required-denies rs scopes d)

check_tool_iff :
    (s : Service) (scopes : List String) (tool_name : String)
    → ((check_tool (lookup tool_name s.tool_scope_map) scopes).allowed ≡ true)
      ↔ MeetsTool s scopes tool_name
unfolding check_tool
check_tool_iff s scopes tool_name = elim (Option-cases (lookup tool_name s.tool_scope_map)) [
  | inl unknown ↦ (λ h. cc (rw unknown at h), λ m. cc (unknown, m.1))
  | inr (required, found) ↦ (
    λ h. (required, found, ground (arith, IsAdmin-or_Holds_iff scopes required)),
    λ m. ground (arith, IsAdmin-or_Holds_iff scopes required, m.1, m.2),
  )
]

-- A call is allowed exactly if every required scope is held and the tool is registered with a scope
-- that is held or that an administrator's token stands in for.
pub check-allowed_iff :
    (s : Service) (scopes : List String) (tool_name : String)
    → ((check s scopes tool_name).allowed ≡ true)
      ↔ (MeetsRequired s.required_scopes scopes × MeetsTool s scopes tool_name)
unfolding check
check-allowed_iff s scopes tool_name =
    elim (Option-cases (check_required s.required_scopes scopes)) [
      | inl passed ↦
          let met = (check_required_iff s.required_scopes scopes).0 passed in
          let tool = check_tool_iff s scopes tool_name in
          (λ h. (met, tool.0 (rw (passed, check) at h)), λ m. rw (passed, check) (tool.1 m.1))
      | inr (d, denied) ↦
          let off = check_required-denies s.required_scopes scopes d denied in
          (
            λ h. cc (off, rw (denied, check) at h),
            λ m. cc (denied, (check_required_iff s.required_scopes scopes).1 m.0),
          )
    ]
