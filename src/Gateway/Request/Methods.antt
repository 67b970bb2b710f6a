-- ===== src/Gateway/Request/Methods.antt =====
-- The tools that read send nothing but GET requests.
use lumen_mcp_server.Base.{String, ◌≡◌, true, none, List, [], ◌∷◌, ok, arith}
use lumen_mcp_server.Json.{Fields, Numbers}
use lumen_mcp_server.Gateway.Request.{export_request, RequestSpec, one_of, build_request}
use lumen_mcp_server.Gateway.Request.Groups.{one_of-elim}
use lumen_mcp_server.Gateway.Request.Segments.{id_request-Addresses}

abbrev pub reading_tools : List String
reading_tools =
    "list_routes" ∷ "get_route" ∷ "list_services" ∷ "list_upstreams" ∷ "list_plugin_configs"
    ∷ "list_global_rules" ∷ "export_bundle" ∷ "history_list" ∷ "get_schema" ∷ "list_plugins"
    ∷ "get_stats" ∷ "analyze_latency" ∷ []

module _ {F : Type 0} (floats : Numbers F) (args : Fields F) (spec : RequestSpec F) where
  abbrev IsGet : Type 0
  IsGet = (spec.method ≡ "GET") × (spec.body ≡ none)

  -- A tool that reads makes a GET request with no body, whatever its arguments.
  pub build_request-IsGet :
      (tool_name : String)
      → one_of tool_name reading_tools ≡ true
      → build_request floats tool_name args ≡ ok spec
      → IsGet
  unfolding build_request export_request
  build_request-IsGet tool_name =
      one_of-elim (λ t. build_request floats t args ≡ ok spec → IsGet) tool_name reading_tools
        (
          λ h. ground arith,
          (
            λ h.
                let (m, b, _) = id_request-Addresses floats "GET" "get_route" args spec h in (m, b),
            (
              λ h. ground arith,
              (
                λ h. ground arith,
                (
                  λ h. ground arith,
                  (
                    λ h. ground arith,
                    (
                      λ h. ground arith,
                      (
                        λ h. ground arith,
                        (
                          λ h. ground arith,
                          (λ h. ground arith, (λ h. ground arith, (λ h. ground arith, tt))),
                        ),
                      ),
                    ),
                  ),
                ),
              ),
            ),
          ),
        )
