-- ===== src/Authorize.antt =====
-- internal/application/authorize/service.go: the scope check of a tool call.
pub mod Spec
pub mod Laws
pub mod Monotone
pub mod Reasons
mod Tests
use lumen_mcp_server.Base.{
  String, Bool, true, false, ◌&&◌, ◌||◌, Option, none, some, List, [], ◌∷◌, any, lookup,
  if◌then◌else◌, ◌==◌, ◌<>◌, trim_space, equal_fold, lower_eq,
}
use lumen_mcp_server.Domain.{Decision}

pub record Service : Type 0 where
  pub tool_scope_map : List (String × String)
  pub required_scopes : List String

abbrev pub legacy_read : List String
legacy_read =
    "mcp:read" ∷ "routes:read" ∷ "services:read" ∷ "upstreams:read" ∷ "plugins:read"
    ∷ "global_rules:read" ∷ "metrics:read" ∷ "gateway:read" ∷ []

abbrev pub legacy_write : List String
legacy_write =
    "mcp:write" ∷ "routes:write" ∷ "services:write" ∷ "upstreams:write" ∷ "plugins:write"
    ∷ "global_rules:write" ∷ "gateway:bundle:apply" ∷ "gateway:dangerous" ∷ "admin:dangerous" ∷ []

unfoldable pub has_scope : String → String → Bool
has_scope required actual =
    if equal_fold required actual
    then true
    else if lower_eq (trim_space required) "read"
    then any (λ scope. equal_fold actual scope) legacy_read
    else if lower_eq (trim_space required) "gateway:write"
    then any (λ scope. equal_fold actual scope) legacy_write
    else false

unfoldable pub has_any_scope : List String → String → Bool → Bool
has_any_scope [] required allow_admin_wildcard = false
has_any_scope (scope ∷ scopes) required allow_admin_wildcard =
    let rest = has_any_scope scopes required allow_admin_wildcard in
    if (allow_admin_wildcard && equal_fold scope "admin:*") || has_scope required scope
    then true
    else rest

abbrev pub missing : String → Decision
missing required = record { allowed = false; reason = "missing required scope: " <> required }

-- the loop over `RequiredScopes`: the decision of an early return
pub check_required : List String → List String → Option Decision
check_required [] scopes = none
check_required (r ∷ rs) scopes =
    let rest = check_required rs scopes in
    let required = trim_space r in
    if required == ""
    then rest
    else if has_any_scope scopes required false
    then rest
    else some (missing required)

-- the look-up in `ToolScopeMap` and what follows it
check_tool : Option String → List String → Decision
check_tool none scopes = record {
  allowed = false;
  reason = "tool not registered in auth.tool_scope_map";
}
check_tool (some required) scopes =
    if has_any_scope scopes required true
    then record { allowed = true; reason = "" }
    else missing required

unfoldable pub check : Service → List String → String → Decision
unfolding check_required check_tool
check s scopes tool_name = elim (check_required s.required_scopes scopes) [
  | some denied ↦ denied
  | none ↦ check_tool (lookup tool_name s.tool_scope_map) scopes
]
