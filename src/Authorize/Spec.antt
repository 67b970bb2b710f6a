-- ===== src/Authorize/Spec.antt =====
-- When a token's scopes entitle it to a tool, stated by relations, with no reference to the loops.
use lumen_mcp_server.Base.{
  String, ◌≡◌, true, some, List, Any, All, ◌⊎◌, lookup, trim_space, equal_fold, lower_eq,
}
use lumen_mcp_server.Authorize.{Service, legacy_read, legacy_write}

-- A scope satisfies a requirement: it is the requirement up to case, or an older scope that the
-- requirements `read` and `gateway:write` stand for.
pub data Satisfies (required actual : String) : Type 0 where
  exact : equal_fold required actual ≡ true → Satisfies required actual
  reads :
      lower_eq (trim_space required) "read" ≡ true
      → Any (λ scope. equal_fold actual scope ≡ true) legacy_read
      → Satisfies required actual
  writes :
      lower_eq (trim_space required) "gateway:write" ≡ true
      → Any (λ scope. equal_fold actual scope ≡ true) legacy_write
      → Satisfies required actual

-- One of the scopes satisfies the requirement.
abbrev pub Holds : List String → String → Type 0
Holds scopes required = Any (λ scope. Satisfies required scope) scopes

-- One of the scopes is `admin:*`.
abbrev pub IsAdmin : List String → Type 0
IsAdmin scopes = Any (λ scope. equal_fold scope "admin:*" ≡ true) scopes

-- Every required scope, blank ones aside, is held.
abbrev pub MeetsRequired : List String → List String → Type 0
MeetsRequired required scopes =
    All (λ r. (trim_space r ≡ "") ⊎ Holds scopes (trim_space r)) required

-- The tool is registered, and its scope is held, or the token is an administrator's.
abbrev pub MeetsTool : Service → List String → String → Type 0
MeetsTool s scopes tool_name =
    (required : String) × (lookup tool_name s.tool_scope_map ≡ some required)
    × (IsAdmin scopes ⊎ Holds scopes required)
