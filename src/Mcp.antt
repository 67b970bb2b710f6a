-- ===== src/Mcp.antt =====
-- internal/interfaces/mcp/server.go: the handler of one tool, the choice of the bearer text, and the
-- guard in front of the transport over HTTP. The MCP library and encoding/json are parameters.
pub mod Handled
pub mod Schemas
mod Tests
use lumen_mcp_server.Base.{
  String, ◌≡◌, Option, none, some, Result, ok, err, if◌then◌else◌, ◌==◌, ◌<>◌, map_err, ℕ,
}
use lumen_mcp_server.Invoke
use lumen_mcp_server.Invoke.{State, message}

-- The interface that the server calls; `invoke_tool` takes the bearer text, the tool's name, its
-- arguments and the trace id, and its error is what `Error()` returns.
pub record ToolInvoker (S Args Payload : Type 0) : Type 0 where
  pub invoke_tool : S → String → String → Args → String → Result String Payload × S

-- The invoke service as such an interface, at the time of the call.
abbrev pub service_invoker :
    {V G A Args Payload : Type 0}
    → Invoke.Service V G A Args Payload
    → ℕ
    → ToolInvoker (State V G A) Args Payload
service_invoker s now = record {
  invoke_tool = λ st bearer tool_name args trace_id.
      let (outcome, st') = Invoke.invoke_tool s now tool_name args trace_id bearer st in
      (map_err message outcome, st');
}

-- `json.Unmarshal` into a map, which stays nil for `null`, and `json.MarshalIndent`.
pub record JsonCodec (Raw Args Payload : Type 0) : Type 0 where
  pub empty : Args
  pub parse : Raw → Result String (Option Args)
  pub print : Payload → Result String String

-- The raw arguments, if there are any; the `Authorization` header, if the transport has headers.
pub record CallToolRequest (Raw : Type 0) : Type 0 where
  pub arguments : Option Raw
  pub header : Option String

pub data CallToolResult : Type 0 where
  text_content : String → CallToolResult
  error_result : String → CallToolResult

pub record Server (S Args Payload : Type 0) : Type 0 where
  pub invoker : ToolInvoker S Args Payload
  pub static_bearer : String
  pub resource_metadata_url : String

abbrev pub non_nil : {Args : Type 0} → Args → Result String (Option Args) → Result String Args
non_nil empty (err e) = err e
non_nil empty (ok none) = ok empty
non_nil empty (ok (some args)) = ok args

module _ {Raw Args Payload : Type 0} (codec : JsonCodec Raw Args Payload) where
  abbrev pub arguments_of : Option Raw → Result String Args
  arguments_of none = ok codec.empty
  arguments_of (some raw) = non_nil codec.empty (codec.parse raw)

  abbrev pub printed : Result String String → CallToolResult
  printed (err e) = error_result ("failed to marshal result: " <> e)
  printed (ok text) = text_content text

  abbrev pub show_outcome : Result String Payload → CallToolResult
  show_outcome (err e) = error_result e
  show_outcome (ok payload) = printed (codec.print payload)

  module _ {S : Type 0} (s : Server S Args Payload) where
    unfoldable pub extract_bearer : CallToolRequest Raw → String
    extract_bearer r = elim r.header [
      | none ↦ s.static_bearer
      | some auth ↦ if auth == "" then s.static_bearer else auth
    ]

    unfoldable pub with_arguments :
        String → CallToolRequest Raw → S → Result String Args → CallToolResult × S
    unfolding extract_bearer
    with_arguments tool_name r st (err e) = (error_result ("invalid arguments: " <> e), st)
    with_arguments tool_name r st (ok args) =
        let bearer = extract_bearer r in
        if bearer == ""
        then (error_result "unauthorized: bearer token required", st)
        else let (outcome, st') = s.invoker.invoke_tool st bearer tool_name args "" in
          (show_outcome outcome, st')

    unfoldable pub make_handler : String → CallToolRequest Raw → S → CallToolResult × S
    unfolding with_arguments
    make_handler tool_name r st = with_arguments tool_name r st (arguments_of r.arguments)

  -- What the guard of the HTTP transport answers itself: the challenge of a 401 response.
  unfoldable pub refuse_http : {S : Type 0} → Server S Args Payload → String → Option String
  refuse_http s authorization =
      if authorization == ""
      then (if s.static_bearer == ""
          then some (
              if s.resource_metadata_url == ""
              then "Bearer"
              else "Bearer resource_metadata=\"" <> (s.resource_metadata_url <> "\""))
          else none)
      else none
