-- ===== src/Mcp/Tests.antt =====
-- Tests: calls over MCP to a tool that counts its calls.
use lumen_mcp_server.Base.{
  suc, ◌==◌, ◌≢◌, if◌then◌else◌, ◌↔◌, ◌≡◌, String, ℕ, none, some, ok, err, refl,
}
use lumen_mcp_server.Mcp.{
  JsonCodec, CallToolRequest, text_content, error_result, Server, make_handler, extract_bearer,
  refuse_http,
}
use lumen_mcp_server.Mcp.Handled.{Handled, refuse_http-extract_bearer}

abbrev codec : JsonCodec String String ℕ
codec = record {
  empty = "{}";
  parse = λ raw. if raw == "?" then err "bad" else if raw == "null" then ok none else ok (some raw);
  print = λ n. ok "seven";
}

abbrev counter : Server ℕ String ℕ
counter = record {
  invoker = record {
    invoke_tool = λ n bearer tool_name args trace_id.
        if bearer == "good" then (ok 7, suc n) else (err "bad token", suc n);
  };
  static_bearer = "";
  resource_metadata_url = "";
}

abbrev with_header : String → CallToolRequest String
with_header auth = record { arguments = some "null"; header = some auth }

answers : make_handler codec counter "get_stats" (with_header "good") 0 ≡ (text_content "seven", 1)
unfolding make_handler
answers = refl

keeps_back :
    make_handler codec counter "get_stats" (with_header "") 0
    ≡ (error_result "unauthorized: bearer token required", 0)
unfolding make_handler
keeps_back = refl

refuse_http-extract_bearer_example :
    (refuse_http codec counter "good" ≡ none)
    ↔ (extract_bearer codec counter (record { arguments = none; header = some "good" }) ≢ "")
refuse_http-extract_bearer_example = refuse_http-extract_bearer codec counter "good" none
