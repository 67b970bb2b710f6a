-- ===== src/Mcp/Schemas.antt =====
-- internal/interfaces/mcp/schemas.go: the JSON schemas of the tools' arguments, as JSON objects; and the
-- registration of the tools in server.go, with the MCP library's AddTool left out.
pub mod Given
pub mod Required
mod Tests
use lumen_mcp_server.Base.{
  ℕ, zero, suc, ◌+◌, ◌-◌, ◌≤◌, ◌<◌, String, Bool, true, false, not, ◌&&◌, ◌||◌, Option, none, some,
  List, [], ◌∷◌, ◌++◌, map, length, ℤ, pos, negsuc, lt_int, not_pos, to_nat, Result, ok, err,
  map_err, Result-cases, Option-cases, Bool-cases, ltb, leb, eqb, if◌then◌else◌, ◌==◌, ◌<>◌, lookup,
  assign, itoa, trim_space, trim_slashes, trim_prefix, has_prefix, split, fields, ◌≡◌, ◌≢◌, ◌↔◌,
  ◌⊎◌, inl, inr, refl, sym, ap, ◌∙◌, arith, eq_iff, All, Any, any, ok,
}
use lumen_mcp_server.Domain.{Definition}
use lumen_mcp_server.Json.{Value, str, arr, obj, Items, nil, cons, Fields, end, field}
use lumen_mcp_server.Gateway.Request.{
  one_of, list_tools, get_tools, put_tools, patch_tools, delete_tools,
}

-- `&gomcp.Tool`
pub record Tool (F : Type 0) : Type 0 where
  pub name : String
  pub description : String
  pub input_schema : Fields F

module _ {F : Type 0} where
  abbrev described : String → String → Value F
  described type description =
      obj (field "type" (str type) (field "description" (str description) end))

  abbrev object_with : Fields F → Fields F → Fields F
  object_with properties rest =
      field "type" (str "object") (field "properties" (obj properties) rest)

  abbrev requiring : Items F → Fields F
  requiring names = field "required" (arr names) end

  abbrev list_schema : Fields F
  list_schema =
      object_with
        (field "page" (described "integer" "Page number") (
          field "page_size" (described "integer" "Items per page")
            (field "keyword" (described "string" "Search keyword") end)))
        end

  abbrev pub id_schema : Fields F
  id_schema =
      object_with (field "id" (described "string" "Resource ID") end)
        (requiring (cons (str "id") nil))

  abbrev pub write_schema : Fields F
  write_schema =
      object_with
        (field "id" (described "string" "Resource ID")
          (field "body" (described "object" "Resource body") end))
        (requiring (cons (str "id") (cons (str "body") nil)))

  abbrev import_schema : Fields F
  import_schema = object_with (field "request" (described "object" "Import bundle payload") end) end

  abbrev export_schema : Fields F
  export_schema =
      object_with
        (field "format" (described "string" "Export format") (
          field "kinds"
            (obj (
              field "type" (str "array") (
                field "items" (obj (field "type" (str "string") end))
                  (field "description" (str "Resource kinds to export") end))))
            end))
        end

  abbrev history_schema : Fields F
  history_schema = object_with (field "limit" (described "integer" "Max entries to return") end) end

  abbrev pub rollback_schema : Fields F
  rollback_schema =
      object_with (field "id" (described "string" "History entry ID to rollback to") end)
        (requiring (cons (str "id") nil))

  -- the options that both latency tools take
  abbrev tuning_properties : Fields F
  tuning_properties = field "min_samples" (described "integer" "Ignore series with fewer samples") (
      field "quantile" (described "number" "Quantile used for recommendations, e.g. 0.95") (
        field "safety_factor"
          (described "number" "Multiplier over observed latency when recommending timeout")
          (field "include_non_2xx" (described "boolean" "Whether to include non-2xx status classes")
            (field "min_connect_ms" (described "number" "Minimum connect timeout in milliseconds") (
              field "min_read_ms" (described "number" "Minimum read/send timeout in milliseconds") (
                field "max_connect_seconds"
                  (described "integer" "Upper bound for connect timeout recommendation")
                  (field "max_read_seconds"
                    (described "integer" "Upper bound for read/send timeout recommendation")
                    end)))))))

  abbrev filters_and : Fields F → Fields F
  filters_and properties =
      field "route_id" (described "string" "Optional route ID filter")
        (field "upstream_id" (described "string" "Optional upstream ID filter") properties)

  abbrev analyze_schema : Fields F
  analyze_schema = object_with (filters_and tuning_properties) end

  abbrev tune_schema : Fields F
  tune_schema =
      object_with
        (filters_and (
          field "dry_run" (described "boolean" "If true, only return recommendation without update")
            tuning_properties))
        end

  abbrev any_object : Fields F
  any_object = field "type" (str "object") end

  -- the cases of the switch that name one or two tools
  single_schema : String → Fields F
  single_schema tool_name =
      if one_of tool_name ("preview_import" ∷ "apply_import" ∷ [])
      then import_schema
      else if tool_name == "export_bundle"
      then export_schema
      else if tool_name == "history_list"
      then history_schema
      else if tool_name == "history_rollback"
      then rollback_schema
      else if tool_name == "analyze_latency"
      then analyze_schema
      else if tool_name == "tune_upstream_timeout"
      then tune_schema
      else any_object

  unfoldable pub input_schema_for : String → Fields F
  unfolding single_schema
  input_schema_for tool_name =
      if one_of tool_name list_tools
      then list_schema
      else if one_of tool_name get_tools
      then id_schema
      else if one_of tool_name (put_tools ++ patch_tools)
      then write_schema
      else if one_of tool_name delete_tools
      then id_schema
      else single_schema tool_name

  unfoldable pub register_tool : Definition → Tool F
  unfolding input_schema_for
  register_tool def = record {
    name = def.name;
    description = def.description;
    input_schema = input_schema_for def.name;
  }

  -- the loop over the catalogue in `New`
  unfoldable pub registered : List Definition → List (Tool F)
  unfolding register_tool
  registered [] = []
  registered (def ∷ catalog) = register_tool def ∷ registered catalog
