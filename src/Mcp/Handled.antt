-- ===== src/Mcp/Handled.antt =====
-- What a tool call over MCP comes to.
use lumen_mcp_server.Base.{eq_iff, arith, ◌≢◌, ◌↔◌, ◌≡◌, Option, String, none, some, ok}
use lumen_mcp_server.Mcp.{
  JsonCodec, CallToolRequest, CallToolResult, text_content, error_result, Server, arguments_of,
  extract_bearer, refuse_http,
}

module _ {S Raw Args Payload : Type 0} (codec : JsonCodec Raw Args Payload)
    (s : Server S Args Payload) where
  module _ (tool_name : String) (r : CallToolRequest Raw) (st : S) where
    -- A call that is passed on: its arguments can be read, and there is a bearer text, that of the
    -- request or else the server's own.
    pub record Passed (args : Args) : Type 0 where
      pub readable : arguments_of codec r.arguments ≡ ok args
      pub bearer : extract_bearer codec s r ≢ ""

    -- What the handler returns, and the state it leaves: a call that is not passed on changes nothing
    -- and yields an error; one that is passed on invokes the tool once, and yields a text exactly if
    -- the tool succeeds and its result can be written as that text.
    pub data Handled : CallToolResult → S → Type 0 where
      kept_back : (e : String) → ((args : Args) → ¬ Passed args) → Handled (error_result e) st
      passed_on :
          (args : Args) (outcome : CallToolResult)
          → Passed args
          → ((text : String)
              → (outcome ≡ text_content text) ↔ (
                  (p : Payload) × ((s.invoker.invoke_tool st
                      (extract_bearer codec s r)
                      tool_name
                      args
                      "").0
                    ≡ ok p)
                  × (codec.print p ≡ ok text)))
          → Handled outcome
              (s.invoker.invoke_tool st (extract_bearer codec s r) tool_name args "").1

  -- A request that the guard of the HTTP transport lets through has a bearer text for the handler.
  pub refuse_http-extract_bearer :
      (authorization : String) (arguments : Option Raw)
      → (refuse_http codec s authorization ≡ none) ↔ (
          extract_bearer codec s (record { arguments = arguments; header = some authorization })
          ≢ "")
  unfolding refuse_http extract_bearer
  refuse_http-extract_bearer authorization arguments =
      ground (arith, eq_iff authorization "", eq_iff s.static_bearer "")
