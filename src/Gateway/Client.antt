-- ===== src/Gateway/Client.antt =====
-- internal/infrastructure/gatewayclient/http_client.go: the client, which sends a request and reads
-- the response. The JSON package, the network and the two latency tools are parameters.
pub mod Responses
mod Tests
use lumen_mcp_server.Base.{
  ℕ, String, Bool, Option, none, some, List, [], ◌∷◌, ℤ, pos, Result, ok, err, map_err, leb,
  if◌then◌else◌, ◌==◌, ◌<>◌, itoa, trim_space, trim_slashes,
}
use lumen_mcp_server.Ports.{GatewayAdminClient}
use lumen_mcp_server.Json.{Value, int, Fields, end, field, Numbers}
use lumen_mcp_server.Gateway.Request.{RequestSpec, build_request}

pub record Client : Type 0 where
  pub base_url : String
  pub api_key : String

unfoldable pub new : String → String → Client
new base_url api_key = record { base_url = trim_slashes base_url; api_key = api_key }

-- `Content-Type` is set with a body only.
pub record HttpRequest : Type 0 where
  pub method : String
  pub url : String
  pub api_key : String
  pub accept : String
  pub body : Option String

pub record HttpResponse : Type 0 where
  pub status : ℕ
  pub content : String

-- What the JSON package does: text for a map, and a map for a text.
pub record JsonCodec (F : Type 0) : Type 0 where
  pub marshal : Fields F → Result String String
  pub unmarshal : String → Result String (Fields F)

-- The network: the answer to a request, or the error of a connection or of `http.NewRequest`.
pub record Transport (W : Type 0) : Type 0 where
  pub exchange : W → HttpRequest → Result String HttpResponse × W

module _ {F : Type 0} (floats : Numbers F) (json : JsonCodec F) where
  encode_body : Option (Fields F) → Result String (Option String)
  encode_body none = ok none
  encode_body (some body) = elim (json.marshal body) [ ok raw ↦ ok (some raw) | err e ↦ err e ]

  request_for : Client → RequestSpec F → Result String HttpRequest
  unfolding encode_body
  request_for c spec = elim (encode_body spec.body) [
    | err e ↦ err e
    | ok body ↦ ok (record {
      method = spec.method;
      url = c.base_url <> spec.path;
      api_key = c.api_key;
      accept = "application/json";
      body = body;
    })
  ]

  -- the request of `invokeGatewayTool`, before it is sent
  unfoldable pub prepare : Client → String → Fields F → Result String HttpRequest
  unfolding request_for
  prepare c tool_name args = elim (build_request floats tool_name args) [
    | err e ↦ err e
    | ok spec ↦ request_for c spec
  ]

  abbrev pub failure : HttpResponse → String
  failure r =
      "gateway request failed: status="
      <> (itoa (pos r.status) <> (" body=" <> trim_space r.content))

  -- what `invokeGatewayTool` makes of a response
  unfoldable pub receive : HttpResponse → Result String (Fields F)
  receive r =
      if leb 400 r.status
      then err (failure r)
      else if r.content == ""
      then ok (field "status" (int (pos r.status)) end)
      else map_err (λ e. "gateway response is not json object: " <> e) (json.unmarshal r.content)

  module _ {W : Type 0} (net : Transport W) where
    unfoldable pub answered : Result String HttpResponse → Result String (Fields F)
    answered (err e) = err e
    answered (ok r) = receive r

    send : W → Result String HttpRequest → Result String (Fields F) × W
    unfolding answered
    send w (err e) = (err e, w)
    send w (ok req) = let (r, w') = net.exchange w req in (answered r, w')

    unfoldable pub invoke_gateway_tool :
        Client → W → String → Fields F → Result String (Fields F) × W
    unfolding send
    invoke_gateway_tool c w tool_name args = send w (prepare c tool_name args)

    -- what `doRequest` makes of a response: the text and the status, or the error
    text_answer : Result String HttpResponse → Result String (String × ℕ)
    text_answer (err e) = err e
    text_answer (ok r) = if leb 400 r.status then err (failure r) else ok (r.content, r.status)

    abbrev pub accept_or_json : String → String
    accept_or_json accept = if trim_space accept == "" then "application/json" else accept

    send_text :
        Client
        → W
        → String
        → String
        → String
        → Result String (Option String)
        → Result String (String × ℕ) × W
    unfolding text_answer
    send_text c w method path accept (err e) = (err e, w)
    send_text c w method path accept (ok body) =
        let (r, w') = net.exchange w (record {
          method = method;
          url = c.base_url <> path;
          api_key = c.api_key;
          accept = accept_or_json accept;
          body = body;
        }) in
        (text_answer r, w')

    -- `doRequest`, whose callers read the text and the status only where there is no error
    unfoldable pub do_request :
        Client → W → String → String → Option (Fields F) → String → Result String (String × ℕ) × W
    unfolding send_text encode_body
    do_request c w method path body accept = send_text c w method path accept (encode_body body)

    -- the dispatch of `InvokeTool`; a nil map of arguments is the empty one
    module _
        (analyze_latency tune_upstream_timeout : W → Fields F → Result String (Fields F) × W) where
      unfoldable pub invoke_tool : Client → W → String → Fields F → Result String (Fields F) × W
      unfolding invoke_gateway_tool
      invoke_tool c w tool_name args =
          if tool_name == "analyze_latency"
          then analyze_latency w args
          else if tool_name == "tune_upstream_timeout"
          then tune_upstream_timeout w args
          else invoke_gateway_tool c w tool_name args

      unfoldable pub gateway_client : Client → GatewayAdminClient W (Fields F) (Fields F)
      gateway_client c = record { invoke_tool = λ w tool_name args. invoke_tool c w tool_name args }
