-- ===== src/Bootstrap/Tests.antt =====
-- Runs of the catalogue with the scope check and with `build_request`.
use lumen_mcp_server.Base.{
  ℕ, ◌≡◌, refl, true, some, [], ◌∷◌, ok, lookup, equal_fold, lower_eq, trim_space, length,
}
use lumen_mcp_server.Json.{Fields, end, field, str}
use lumen_mcp_server.Gateway.Fixture.{floats, with_id}
use lumen_mcp_server.Gateway.Url.{path_escape}
use lumen_mcp_server.Gateway.Request.{RequestSpec, build_request, get_request}
use lumen_mcp_server.Gateway.Args.{as_string}
use lumen_mcp_server.Authorize
use lumen_mcp_server.Authorize.{check, has_any_scope, has_scope}
use lumen_mcp_server.Bootstrap.{catalog}
use lumen_mcp_server.Bootstrap.Scopes.{scope_map}

twenty_three : length catalog ≡ 23
twenty_three = refl

stats_built :
    build_request floats "get_stats" end ≡ ok (get_request floats "/apisix/admin/control/stats")
unfolding build_request
stats_built = refl

abbrev svc : Authorize.Service
svc = record { tool_scope_map = scope_map catalog; required_scopes = "mcp:tools" ∷ [] }

abbrev rollback : RequestSpec ℕ
rollback = record {
  method = "POST";
  path = "/apisix/admin/control/history/7/rollback";
  body = some end;
}

rollback_built : build_request floats "history_rollback" (with_id "7") ≡ ok rollback
unfolding build_request as_string lumen_mcp_server.Json.get trim_space path_escape
    lumen_mcp_server.Gateway.Url.kept_in_path
rollback_built = refl

writer_allowed : (check svc ("mcp:tools" ∷ "routes:write" ∷ []) "history_rollback").allowed ≡ true
unfolding check has_any_scope has_scope lookup equal_fold lower_eq trim_space
writer_allowed = refl
