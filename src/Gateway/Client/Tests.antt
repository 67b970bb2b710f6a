-- ===== src/Gateway/Client/Tests.antt =====
-- A run of the client, and its properties at concrete inputs.
use lumen_mcp_server.Base.{ℕ, ◌≡◌, refl, none, ok, [], ◌∷◌, pos}
use lumen_mcp_server.Json.{Fields, end, field, str, int}
use lumen_mcp_server.Gateway.Fixture.{floats, json, net, client}
use lumen_mcp_server.Gateway.Request.{build_request}
use lumen_mcp_server.Gateway.Client.{
  HttpRequest, HttpResponse, prepare, receive, invoke_gateway_tool,
}
use lumen_mcp_server.Gateway.Client.Responses.{Sent, invoke_gateway_tool-Sent}

abbrev answer : Fields ℕ
answer = field "value" (str "{}") end

abbrev sent : HttpRequest
sent = record {
  method = "GET";
  url = "http://gw/apisix/admin/control/stats";
  api_key = "k";
  accept = "application/json";
  body = none;
}

stats_run : invoke_gateway_tool floats json net client [] "get_stats" end ≡ (ok answer, sent ∷ [])
unfolding invoke_gateway_tool prepare receive build_request
stats_run = refl

invoke_gateway_tool-Sent_example : Sent floats json net client [] "get_stats" end answer (sent ∷ [])
invoke_gateway_tool-Sent_example =
    invoke_gateway_tool-Sent floats json net client [] (sent ∷ []) "get_stats" end answer stats_run

abbrev empty_answer : HttpResponse
empty_answer = record { status = 204; content = "" }

empty_read : receive floats json empty_answer ≡ ok (field "status" (int (pos 204)) end)
unfolding receive
empty_read = refl
