-- ===== src/Gateway/Client/Responses.antt =====
-- What the client sends, and what it makes of an answer.
use lumen_mcp_server.Base.{
  ap, String, ◌≡◌, ◌≢◌, ◌↔◌, ◌<◌, Option, some, none, ok, arith, eq_iff, ◌⊎◌, inl, inr, pos, ◌<>◌,
  Result-cases,
}
use lumen_mcp_server.Json.{Fields, field, end, int, Numbers}
use lumen_mcp_server.Gateway.Request.{RequestSpec, build_request}
use lumen_mcp_server.Gateway.Client.{
  Client, HttpRequest, HttpResponse, JsonCodec, Transport, encode_body, request_for, prepare,
  receive, invoke_gateway_tool,
}

module _ {F : Type 0} (floats : Numbers F) (json : JsonCodec F) where
  -- The text of a request's body: none without a body, else the JSON of it.
  abbrev pub Encodes : Option (Fields F) → Option String → Type 0
  Encodes none raw = raw ≡ none
  Encodes (some body) raw = (text : String) × (json.marshal body ≡ ok text) × (raw ≡ some text)

  encode_body-Encodes :
      (b : Option (Fields F)) (raw : Option String)
      → encode_body floats json b ≡ ok raw
      → Encodes b raw
  unfolding encode_body
  encode_body-Encodes none raw h = ground arith
  encode_body-Encodes (some body) raw h = elim (Result-cases (json.marshal body)) [
    | inl (text, good) ↦ (text, good, ground arith)
    | inr (e, bad) ↦ cc (rw (bad, encode_body) at h)
  ]

  -- What is sent for a tool call is what `build_request` asks for, at the client's gateway and with
  -- the client's API key.
  pub record Carries (c : Client) (spec : RequestSpec F) (req : HttpRequest) : Type 0 where
    pub method : req.method ≡ spec.method
    pub url : req.url ≡ c.base_url <> spec.path
    pub api_key : req.api_key ≡ c.api_key
    pub body : Encodes spec.body req.body

  request_for-Carries :
      (c : Client) (spec : RequestSpec F) (req : HttpRequest)
      → request_for floats json c spec ≡ ok req
      → Carries c spec req
  unfolding request_for
  request_for-Carries c spec req h = elim (Result-cases (encode_body floats json spec.body)) [
    | inr (e, bad) ↦ cc (rw (bad, request_for) at h)
    | inl (raw, good) ↦
        let same : req.body ≡ raw = ground arith in
        record {
          method = ground arith;
          url = ground arith;
          api_key = ground arith;
          body = rw same (encode_body-Encodes spec.body raw good);
        }
  ]

  pub prepare-Carries :
      (c : Client) (tool_name : String) (args : Fields F) (req : HttpRequest)
      → prepare floats json c tool_name args ≡ ok req
      → (spec : RequestSpec F) × (build_request floats tool_name args ≡ ok spec)
        × Carries c spec req
  unfolding prepare
  prepare-Carries c tool_name args req h =
      elim (Result-cases (build_request floats tool_name args)) [
        | inr (e, bad) ↦ cc (rw (bad, prepare) at h)
        | inl (spec, good) ↦ (spec, good, request_for-Carries c spec req (rw (good, prepare) at h))
      ]

  -- A response yields a result exactly if its status is below 400 and its body is empty, when the
  -- result holds the status, or is read by the codec, when the result is what it reads.
  receive-ok_iff :
      (r : HttpResponse) (m : Fields F)
      → (receive floats json r ≡ ok m) ↔ (
          (r.status < 400)
          × (((r.content ≡ "") × (m ≡ field "status" (int (pos r.status)) end))
              ⊎ ((r.content ≢ "") × (json.unmarshal r.content ≡ ok m))))
  unfolding receive
  receive-ok_iff r m = ground (arith, eq_iff r.content "")

  module _ {W : Type 0} (net : Transport W) where
    -- One request, the one that `build_request` asks for, sent with the client's API key, answered
    -- with a status below 400, and read.
    pub record Sent (c : Client) (w : W) (tool_name : String) (args : Fields F) (m : Fields F)
        (w' : W) : Type 0 where
      pub spec : RequestSpec F
      pub req : HttpRequest
      pub response : HttpResponse
      pub asked : build_request floats tool_name args ≡ ok spec
      pub carried : Carries c spec req
      pub answered : (net.exchange w req).0 ≡ ok response
      pub after : w' ≡ (net.exchange w req).1
      pub accepted : response.status < 400
      pub read : receive floats json response ≡ ok m

    -- A tool call that yields a result has sent one request, the one that `build_request` asks for,
    -- with the client's API key; its answer had a status below 400 and was read as the result.
    pub invoke_gateway_tool-Sent :
        (c : Client) (w w' : W) (tool_name : String) (args m : Fields F)
        → invoke_gateway_tool floats json net c w tool_name args ≡ (ok m, w')
        → Sent c w tool_name args m w'
    unfolding invoke_gateway_tool
    invoke_gateway_tool-Sent c w w' tool_name args m h =
        elim (Result-cases (prepare floats json c tool_name args)) [
          | inr (e, bad) ↦ cc (ap (λ p. p.0) (rw (bad, invoke_gateway_tool) at h))
          | inl (req, good) ↦ elim (Result-cases (net.exchange w req).0) [
            | inr (e, lost) ↦ ground (arith, good, lost)
            | inl (response, got) ↦
                let (spec, asked, carried) = prepare-Carries c tool_name args req good in
                let read : receive floats json response ≡ ok m = ground (arith, good, got) in
                record {
                  spec = spec;
                  req = req;
                  response = response;
                  asked = asked;
                  carried = carried;
                  answered = got;
                  after = ground (arith, good);
                  accepted = ((receive-ok_iff response m).0 read).0;
                  read = read;
                }
          ]
        ]
