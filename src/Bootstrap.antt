-- ===== src/Bootstrap.antt =====
-- internal/bootstrap/app.go: the catalogue of tools, each with the scope that it is meant to need.
pub mod Scopes
pub mod Wiring
pub mod Run
mod Tests
use lumen_mcp_server.Base.{String, List, [], ◌∷◌}
use lumen_mcp_server.Domain.{Definition}

abbrev pub tool : String → String → String → Definition
tool name description scope = record { name = name; description = description; scope = scope }

abbrev pub catalog : List Definition
catalog =
    tool "list_routes" "List gateway routes" "read"
    ∷ tool "get_route" "Get route" "read"
    ∷ tool "put_route" "Create/update route" "gateway:write"
    ∷ tool "patch_route" "Patch route" "gateway:write"
    ∷ tool "delete_route" "Delete route" "gateway:write"
    ∷ tool "list_services" "List gateway services" "read"
    ∷ tool "put_service" "Create/update service" "gateway:write"
    ∷ tool "list_upstreams" "List gateway upstreams" "read"
    ∷ tool "put_upstream" "Create/update upstream" "gateway:write"
    ∷ tool "list_plugin_configs" "List plugin configs" "read"
    ∷ tool "put_plugin_config" "Create/update plugin config" "gateway:write"
    ∷ tool "list_global_rules" "List global rules" "read"
    ∷ tool "put_global_rule" "Create/update global rule" "gateway:write"
    ∷ tool "preview_import" "Preview import bundle" "gateway:write"
    ∷ tool "apply_import" "Apply import bundle" "gateway:write"
    ∷ tool "export_bundle" "Export bundle" "read"
    ∷ tool "history_list" "List history" "read"
    ∷ tool "history_rollback" "Rollback history" "gateway:write"
    ∷ tool "get_schema" "Get control schema" "read"
    ∷ tool "list_plugins" "List plugin catalog" "read"
    ∷ tool "get_stats" "Get control stats" "read"
    ∷ tool "analyze_latency" "Analyze upstream latency from /metrics and suggest timeout values"
        "read"
    ∷ tool "tune_upstream_timeout" "Tune upstream timeout from latency analysis (supports dry-run)"
        "gateway:write"
    ∷ []
