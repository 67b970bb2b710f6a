-- ===== src/Gateway/Request.antt =====
-- internal/infrastructure/gatewayclient/http_client.go: `buildRequest` and its helpers, which turn a
-- tool's name and arguments into a request to the admin API.
pub mod Groups
pub mod Segments
pub mod Methods
pub mod Totality
mod Tests
use lumen_mcp_server.Base.{
  String, Bool, ◌||◌, Option, none, some, List, [], ◌∷◌, ℤ, pos, Result, ok, err, ◌>>=◌, any,
  lt_int, if◌then◌else◌, ◌==◌, ◌<>◌, itoa, contains, trim_prefix, is_empty, not_pos,
}
use lumen_mcp_server.Json.{Fields, end, Numbers}
use lumen_mcp_server.Gateway.Url.{Values, path_escape, set_value, add_value, encode}
use lumen_mcp_server.Gateway.Args.{as_map, as_string, as_string_slice, as_int}

-- `body` is `none` where the Go map is nil.
pub record RequestSpec (F : Type 0) : Type 0 where
  pub method : String
  pub path : String
  pub body : Option (Fields F)

-- a case of `switch toolName`
abbrev pub one_of : String → List String → Bool
one_of tool_name names = any (λ n. tool_name == n) names

abbrev pub list_tools : List String
list_tools =
    "list_routes" ∷ "list_services" ∷ "list_upstreams" ∷ "list_plugin_configs" ∷ "list_global_rules"
    ∷ []

abbrev pub get_tools : List String
get_tools =
    "get_route" ∷ "get_service" ∷ "get_upstream" ∷ "get_plugin_config" ∷ "get_global_rule" ∷ []

abbrev pub put_tools : List String
put_tools =
    "put_route" ∷ "put_service" ∷ "put_upstream" ∷ "put_plugin_config" ∷ "put_global_rule" ∷ []

abbrev pub patch_tools : List String
patch_tools =
    "patch_route" ∷ "patch_service" ∷ "patch_upstream" ∷ "patch_plugin_config" ∷ "patch_global_rule"
    ∷ []

abbrev pub delete_tools : List String
delete_tools =
    "delete_route" ∷ "delete_service" ∷ "delete_upstream" ∷ "delete_plugin_config"
    ∷ "delete_global_rule" ∷ []

-- the inner switch of `parseKindAndID`
unfoldable pub kind_of : String → Option String
unfolding contains
kind_of tool_name =
    if contains tool_name "_route"
    then some "routes"
    else if contains tool_name "_service"
    then some "services"
    else if contains tool_name "_upstream"
    then some "upstreams"
    else if contains tool_name "_plugin_config"
    then some "plugin_configs"
    else if contains tool_name "_global_rule"
    then some "global_rules"
    else none

module _ {F : Type 0} (floats : Numbers F) where
  with_kind : Option String → String → String → Result String (String × String)
  with_kind none tool_name id = err ("cannot infer resource kind from tool: " <> tool_name)
  with_kind (some kind) tool_name id = ok (kind, id)

  parse_kind_and_id : String → Fields F → Result String (String × String)
  unfolding with_kind
  parse_kind_and_id tool_name args =
      let id = as_string args "id" in
      if id == "" then err "missing args.id" else with_kind (kind_of tool_name) tool_name id

  parse_write : String → Fields F → Result String (String × String × Fields F)
  parse_write tool_name args = elim (parse_kind_and_id tool_name args) [
    | err e ↦ err e
    | ok (kind, id) ↦ elim (as_map args "body") [
      | err e ↦ err "missing args.body object"
      | ok body ↦ ok (kind, id, body)
    ]
  ]

  set_positive : String → ℤ → Values → Values
  set_positive key n q = if not_pos n then q else set_value key (itoa n) q

  set_text : String → String → Values → Values
  set_text key s q = if s == "" then q else set_value key s q

  add_all : String → List String → Values → Values
  add_all key [] q = q
  add_all key (v ∷ vs) q = add_all key vs (add_value key v q)

  question : String → String
  question raw = if raw == "" then "" else "?" <> raw

  build_list_query : Fields F → String
  unfolding set_positive set_text question
  build_list_query args = question (
      encode (
        set_text "keyword" (as_string args "keyword") (
          set_positive "page_size" (as_int floats args "page_size" (pos 0))
            (set_positive "page" (as_int floats args "page" (pos 0)) []))))

  abbrev pub resource_path : String → String → String
  resource_path kind id = "/apisix/admin/" <> (kind <> ("/" <> path_escape id))

  -- the requests with an id, and those with an id and a body
  unfoldable pub id_request : String → String → Fields F → Result String (RequestSpec F)
  unfolding parse_kind_and_id
  id_request method tool_name args = elim (parse_kind_and_id tool_name args) [
    | err e ↦ err e
    | ok (kind, id) ↦ ok (record { method = method; path = resource_path kind id; body = none })
  ]

  unfoldable pub write_request : String → String → Fields F → Result String (RequestSpec F)
  unfolding parse_write parse_kind_and_id
  write_request method tool_name args = elim (parse_write tool_name args) [
    | err e ↦ err e
    | ok (kind, id, body) ↦
        ok (record { method = method; path = resource_path kind id; body = some body })
  ]

  import_request : String → Fields F → RequestSpec F
  import_request path args = record {
    method = "POST";
    path = path;
    body = elim (as_map args "request") [ ok body ↦ some body | err e ↦ some args ];
  }

  pub export_request : Fields F → RequestSpec F
  unfolding set_text add_all question
  export_request args = record {
    method = "GET";
    path =
        "/apisix/admin/control/exports"
        <> question (
            encode (
              add_all "kind" (as_string_slice args "kinds")
                (set_text "format" (as_string args "format") [])));
    body = none;
  }

  rollback_request : Fields F → Result String (RequestSpec F)
  rollback_request args =
      let id = as_string args "id" in
      if id == ""
      then err "history_rollback requires args.id"
      else ok (record {
        method = "POST";
        path = "/apisix/admin/control/history/" <> (path_escape id <> "/rollback");
        body = some end;
      })

  abbrev pub get_request : String → RequestSpec F
  get_request path = record { method = "GET"; path = path; body = none }

  -- the cases of the switch that name one tool
  control_request : String → Fields F → Result String (RequestSpec F)
  unfolding import_request export_request rollback_request
  control_request tool_name args =
      if tool_name == "preview_import"
      then ok (import_request "/apisix/admin/control/imports/preview" args)
      else if tool_name == "apply_import"
      then ok (import_request "/apisix/admin/control/imports/apply" args)
      else if tool_name == "export_bundle"
      then ok (export_request args)
      else if tool_name == "history_list"
      then ok (
          get_request
            ("/apisix/admin/control/history?limit=" <> itoa (as_int floats args "limit" (pos 10))))
      else if tool_name == "history_rollback"
      then rollback_request args
      else if tool_name == "get_schema"
      then ok (get_request "/apisix/admin/control/schema")
      else if tool_name == "list_plugins"
      then ok (get_request "/apisix/admin/control/plugins")
      else if tool_name == "get_stats"
      then ok (get_request "/apisix/admin/control/stats")
      else err ("unsupported tool: " <> tool_name)

  unfoldable pub build_request : String → Fields F → Result String (RequestSpec F)
  unfolding control_request build_list_query id_request write_request
  build_request tool_name args =
      if one_of tool_name list_tools
      then ok (
          get_request
            ("/apisix/admin/" <> (trim_prefix tool_name "list_" <> build_list_query args)))
      else if one_of tool_name get_tools
      then id_request "GET" tool_name args
      else if one_of tool_name put_tools
      then write_request "PUT" tool_name args
      else if one_of tool_name patch_tools
      then write_request "PATCH" tool_name args
      else if one_of tool_name delete_tools
      then id_request "DELETE" tool_name args
      else control_request tool_name args
