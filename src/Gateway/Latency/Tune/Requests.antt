-- ===== src/Gateway/Latency/Tune/Requests.antt =====
-- What a call of `TuneUpstreamTimeout` sends to the gateway.
use lumen_mcp_server.Base.{
  true, refl, err, Result, String, Bool, false, some, List, [], ◌∷◌, ◌++◌, ok, Result-cases, ◌<>◌,
  trim_space, ◌≡◌, inl, inr, arith,
}
use lumen_mcp_server.Json.{str, bool, obj, int, Fields, end, field, get, put}
use lumen_mcp_server.Gateway.Args.{as_map, as_string}
use lumen_mcp_server.Gateway.Request.{RequestSpec, resource_path, build_request, kind_of}
use lumen_mcp_server.Gateway.Client.{
  HttpResponse, Client, HttpRequest, JsonCodec, Transport, prepare, answered, receive,
  invoke_gateway_tool,
}
use lumen_mcp_server.Gateway.Client.Responses.{Encodes}
use lumen_mcp_server.Gateway.Latency.{Floats, TimeoutRecommendation, TuningOptions}
use lumen_mcp_server.Gateway.Latency.Histogram.Ranges.{IsAllowed}
use lumen_mcp_server.Gateway.Latency.Tune.{put_args}

-- A request with its answer.
abbrev pub Exchange : Type 0
Exchange = HttpRequest × Result String HttpResponse

-- A network that also keeps the requests that it is given, with the answers.
abbrev pub recorded : {W : Type 0} → Transport W → Transport (W × List Exchange)
recorded net = record {
  exchange = λ (w, log) req.
      let (answer, w') = net.exchange w req in (answer, (w', log ++ (req, answer) ∷ []));
}

module _ {F : Type 0} (floats : Floats F) (json : JsonCodec F) (c : Client) where
  -- A request that only reads, at a path of the gateway.
  pub record IsRead (path : String) (x : Exchange) : Type 0 where
    pub method : x.0.method ≡ "GET"
    pub url : x.0.url ≡ c.base_url <> path

  -- What the code makes of an answer.
  abbrev pub read_answer : Result String HttpResponse → Result String (Fields F)
  read_answer (err e) = err e
  read_answer (ok r) = receive floats.numbers json r

  -- A request that writes an upstream: the value that was read before, but for its timeouts, which
  -- may be applied.
  pub record IsUpdate (opts : TuningOptions F) (upstream_id : String) (g x : Exchange)
      : Type 0 where
    pub method : x.0.method ≡ "PUT"
    pub url : x.0.url ≡ c.base_url <> resource_path floats.numbers "upstreams" upstream_id
    pub upstream : Fields F
    pub upstream_read : read_answer g.1 ≡ ok upstream
    pub value : Fields F
    pub value_read : as_map upstream "value" ≡ ok value
    pub timeouts : TimeoutRecommendation
    pub allowed : IsAllowed floats opts timeouts
    pub body :
        Encodes floats.numbers json
          (some (
            put "timeout"
              (obj (
                field "connect"
                  (int timeouts.connect)
                  (field "send" (int timeouts.send) (field "read" (int timeouts.read) end))))
              value))
          x.0.body

  -- The result of a call that changes nothing: an error, or a report that says so.
  abbrev pub SaysUnchanged : Result String (Fields F) → Type 0
  SaysUnchanged (err e) = Unit
  SaysUnchanged (ok m) = get "updated" m ≡ some (bool false)

  -- The result of a call that writes, by what the write comes to: an error, or a report of a change.
  abbrev pub Says : Result String (Fields F) → Result String (Fields F) → Type 0
  Says (err e) (err e') = Unit
  Says (ok answer) (ok m) = get "updated" m ≡ some (bool true)
  Says written r = ⊥

  -- The requests of one call, by its result: the metrics are read; then an upstream may be read; then,
  -- unless the run is dry, that upstream may be written, once. The result says what was changed.
  pub data Requests (opts : TuningOptions F) (dry_run : Bool)
      : Result String (Fields F) → List Exchange → Type 0 where
    metrics :
        (m : Exchange) (r : Result String (Fields F))
        → IsRead "/metrics" m
        → SaysUnchanged r
        → Requests opts dry_run r (m ∷ [])
    looked :
        (m g : Exchange) (upstream_id : String) (r : Result String (Fields F))
        → IsRead "/metrics" m
        → IsRead (resource_path floats.numbers "upstreams" upstream_id) g
        → SaysUnchanged r
        → Requests opts dry_run r (m ∷ g ∷ [])
    updated :
        (m g p : Exchange) (upstream_id : String) (r : Result String (Fields F))
        → dry_run ≡ false
        → IsRead "/metrics" m
        → IsRead (resource_path floats.numbers "upstreams" upstream_id) g
        → IsUpdate opts upstream_id g p
        → Says (read_answer p.1) r
        → Requests opts dry_run r (m ∷ g ∷ p ∷ [])

  -- What one call of a tool adds to the log, by its result: nothing where no request can be made.
  pub data Called (tool_name : String) (args : Fields F) (log : List Exchange)
      : Result String (Fields F) → List Exchange → Type 0 where
    silent : (e : String) → Called tool_name args log (err e) log
    sent :
        (r : Result String (Fields F)) (x : Exchange)
        → prepare floats.numbers json c tool_name args ≡ ok x.0
        → r ≡ read_answer x.1
        → Called tool_name args log r (log ++ x ∷ [])

  answered-eq :
      {W : Type 0} (net : Transport W) (answer : Result String HttpResponse)
      → answered floats.numbers json net answer ≡ read_answer answer
  unfolding answered
  answered-eq net (err e) = refl
  answered-eq net (ok r) = refl

  pub call-Called :
      {W : Type 0} (net : Transport W) (w : W) (log : List Exchange) (tool_name : String)
      (args : Fields F)
      → let called =
          invoke_gateway_tool floats.numbers json (recorded net) c (w, log) tool_name args in
        Called tool_name args log called.0 called.1.1
  unfolding invoke_gateway_tool
  call-Called net w log tool_name args =
      elim (Result-cases (prepare floats.numbers json c tool_name args)) [
        | inr (e, bad) ↦ rw bad (silent e)
        | inl (req, good) ↦ rw good (
            sent _ (req, (net.exchange w req).0) good
              (answered-eq (recorded net) (net.exchange w req).0))
      ]

  pub get_upstream-asked :
      (upstream_id : String) (spec : RequestSpec F)
      → build_request floats.numbers "get_upstream" (field "id" (str upstream_id) end) ≡ ok spec
      → (spec.method ≡ "GET")
        × (spec.path ≡ resource_path floats.numbers "upstreams" (trim_space upstream_id))
  unfolding build_request as_string get kind_of
  get_upstream-asked upstream_id spec h = ground arith

  pub put_upstream-asked :
      (upstream_id : String) (value : Fields F) (spec : RequestSpec F)
      → build_request floats.numbers "put_upstream" (put_args upstream_id value) ≡ ok spec
      → (spec.method ≡ "PUT")
        × (spec.path ≡ resource_path floats.numbers "upstreams" (trim_space upstream_id))
        × (spec.body ≡ some value)
  unfolding build_request as_string as_map get kind_of
  put_upstream-asked upstream_id value spec h = ground arith
