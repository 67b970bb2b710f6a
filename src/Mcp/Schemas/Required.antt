-- ===== src/Mcp/Schemas/Required.antt =====
-- What the schema of a tool requires is what `buildRequest` demands.
use lumen_mcp_server.Base.{
  String, true, false, some, ◌++◌, Bool-cases, ◌==◌, ◌<>◌, ◌≡◌, ◌≢◌, inl, inr, refl, arith, eq_iff,
}
use lumen_mcp_server.Json.{Fields, Numbers, end, get}
use lumen_mcp_server.Gateway.Url.{path_escape}
use lumen_mcp_server.Gateway.Args.{as_string}
use lumen_mcp_server.Gateway.Request.{
  one_of, list_tools, get_tools, put_tools, patch_tools, delete_tools, build_request,
}
use lumen_mcp_server.Gateway.Request.Groups.{
  one_of-elim, one_of-append, id_tools, id_tools-HasKind, id_tools-Grouped,
}
use lumen_mcp_server.Gateway.Request.Totality.{control_tools}
use lumen_mcp_server.Gateway.Request.Segments.{build-get, build-put, build-patch, build-delete}
use lumen_mcp_server.Mcp.Schemas.{id_schema, write_schema, input_schema_for}
use lumen_mcp_server.Mcp.Schemas.Given.{
  Meets, IsText-as_string, as_string-IsText, Given-IsText, IsBuilt, Agrees, id_request-Meets,
  write_request-Meets,
}

module _ {F : Type 0} (floats : Numbers F) (args : Fields F) where
  always :
      (tool_name : String)
      → IsBuilt floats args tool_name
      → Meets (input_schema_for tool_name) args
      → Agrees floats args tool_name
  always tool_name built met = (λ b. met, λ m. built)

  abbrev HasSchema : Fields F → String → Type 0
  HasSchema schema tool_name = input_schema_for {F = F} tool_name ≡ schema

  schema-get :
      (tool_name : String) → one_of tool_name get_tools ≡ true → HasSchema id_schema tool_name
  unfolding input_schema_for
  schema-get tool_name =
      one_of-elim (HasSchema id_schema) tool_name get_tools
        (refl, (refl, (refl, (refl, (refl, tt)))))

  schema-put :
      (tool_name : String) → one_of tool_name put_tools ≡ true → HasSchema write_schema tool_name
  unfolding input_schema_for
  schema-put tool_name =
      one_of-elim (HasSchema write_schema) tool_name put_tools
        (refl, (refl, (refl, (refl, (refl, tt)))))

  schema-patch :
      (tool_name : String) → one_of tool_name patch_tools ≡ true → HasSchema write_schema tool_name
  unfolding input_schema_for
  schema-patch tool_name =
      one_of-elim (HasSchema write_schema) tool_name patch_tools
        (refl, (refl, (refl, (refl, (refl, tt)))))

  schema-delete :
      (tool_name : String) → one_of tool_name delete_tools ≡ true → HasSchema id_schema tool_name
  unfolding input_schema_for
  schema-delete tool_name =
      one_of-elim (HasSchema id_schema) tool_name delete_tools
        (refl, (refl, (refl, (refl, (refl, tt)))))

  Agrees-id : (tool_name : String) → one_of tool_name id_tools ≡ true → Agrees floats args tool_name
  Agrees-id tool_name member =
      let (kind, found) = id_tools-HasKind tool_name member in
      elim (id_tools-Grouped tool_name member) [
        | inl g ↦
            rw (build-get floats tool_name args g, schema-get tool_name g)
              (id_request-Meets floats args "GET" tool_name kind found)
        | inr (inl g) ↦
            rw (build-put floats tool_name args g, schema-put tool_name g)
              (write_request-Meets floats args "PUT" tool_name kind found)
        | inr (inr (inl g)) ↦
            rw (build-patch floats tool_name args g, schema-patch tool_name g)
              (write_request-Meets floats args "PATCH" tool_name kind found)
        | inr (inr (inr g)) ↦
            rw (build-delete floats tool_name args g, schema-delete tool_name g)
              (id_request-Meets floats args "DELETE" tool_name kind found)
      ]

  Agrees-list :
      (tool_name : String) → one_of tool_name list_tools ≡ true → Agrees floats args tool_name
  unfolding build_request input_schema_for get
  Agrees-list tool_name = one_of-elim (Agrees floats args) tool_name list_tools (
    always "list_routes" (_, refl) tt,
    (
      always "list_services" (_, refl) tt,
      (
        always "list_upstreams" (_, refl) tt,
        (always "list_plugin_configs" (_, refl) tt, (always "list_global_rules" (_, refl) tt, tt)),
      ),
    ),
  )

  Agrees-rollback : Agrees floats args "history_rollback"
  unfolding build_request input_schema_for get
  Agrees-rollback = (
    λ (spec, h).
        let full : as_string args "id" ≢ "" = ground (arith, eq_iff (as_string args "id") "") in
        (inl (refl, IsText-as_string args "id" (get "id" args) refl full), tt),
    λ (given, _).
        let full : (as_string args "id" == "") ≡ false = ground (
          arith,
          eq_iff (as_string args "id") "",
          as_string-IsText args "id" (Given-IsText args "id" given),
        ) in
        (
          record {
            method = "POST";
            path =
                "/apisix/admin/control/history/"
                <> (path_escape (as_string args "id") <> "/rollback");
            body = some end;
          },
          rw (full, build_request) refl,
        ),
  )

  Agrees-control :
      (tool_name : String) → one_of tool_name control_tools ≡ true → Agrees floats args tool_name
  unfolding build_request input_schema_for get
  Agrees-control tool_name = one_of-elim (Agrees floats args) tool_name control_tools (
    always "preview_import" (_, refl) tt,
    (
      always "apply_import" (_, refl) tt,
      (
        always "export_bundle" (_, refl) tt,
        (
          always "history_list" (_, refl) tt,
          (
            Agrees-rollback,
            (
              always "get_schema" (_, refl) tt,
              (always "list_plugins" (_, refl) tt, (always "get_stats" (_, refl) tt, tt)),
            ),
          ),
        ),
      ),
    ),
  )

  -- For every tool that makes one request, there is a request exactly if the arguments that the
  -- tool's schema requires are given and have their types, and those that are texts are not blank.
  pub build_request-Meets :
      (tool_name : String)
      → one_of tool_name (list_tools ++ (id_tools ++ control_tools)) ≡ true
      → Agrees floats args tool_name
  build_request-Meets tool_name member = elim (Bool-cases (one_of tool_name list_tools)) [
    | inl lists ↦ Agrees-list tool_name lists
    | inr unlisted ↦ elim (Bool-cases (one_of tool_name id_tools)) [
      | inl single ↦ Agrees-id tool_name single
      | inr other ↦ Agrees-control tool_name (
          ground (
            arith,
            one_of-append tool_name list_tools (id_tools ++ control_tools),
            one_of-append tool_name id_tools control_tools,
          ))
    ]
  ]
