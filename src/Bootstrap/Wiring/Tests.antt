-- ===== src/Bootstrap/Wiring/Tests.antt =====
-- An application in a concrete environment, and its property there.
use Prim.Native.Nat.{◌*◌, ◌/◌}
use lumen_mcp_server.Base.{
  ℕ, zero, suc, ◌+◌, ◌-◌, ◌≤◌, ◌<◌, String, Bool, true, false, not, ◌&&◌, ◌||◌, Option, none, some,
  List, [], ◌∷◌, ◌++◌, map, length, ℤ, pos, negsuc, lt_int, not_pos, to_nat, Result, ok, err,
  map_err, Result-cases, Option-cases, Bool-cases, ltb, leb, eqb, if◌then◌else◌, ◌==◌, ◌<>◌, lookup,
  assign, itoa, trim_space, trim_slashes, trim_prefix, has_prefix, split, fields, ◌≡◌, ◌≢◌, ◌↔◌,
  ◌⊎◌, inl, inr, refl, sym, ap, ◌∙◌, arith, eq_iff, All, Any, any, take, reverse,
}
use lumen_mcp_server.Audit.Memory.{new_memory}
use lumen_mcp_server.Audit.Backend.{Backend, memory}
use lumen_mcp_server.Json.{str, Fields, end, field}
use lumen_mcp_server.Invoke.{State}
use lumen_mcp_server.Http
use lumen_mcp_server.Http.{handle_invoke}
use lumen_mcp_server.Verifier.Token.{Running}
use lumen_mcp_server.Gateway.Latency.Tune.Requests.{Exchange}
use lumen_mcp_server.Bootstrap.{catalog, tool}
use lumen_mcp_server.Bootstrap.Wiring.{Outside, App, service_of, assembled, new, backend_store}
use lumen_mcp_server.Bootstrap.Wiring.Stored.{Refines, log_of, kept_by, backend_store-Refines}
use lumen_mcp_server.Domain.{Definition, Event}
use lumen_mcp_server.Audit.Sql.{Rows, Database, IsTable}
use lumen_mcp_server.Audit.Backend.{Driver}
use lumen_mcp_server.Bootstrap.Wiring.Fixture.{outside, config}
use lumen_mcp_server.Bootstrap.Wiring.Sent.{watched, IfWritten, IsWriter, client-IfWritten}
use lumen_mcp_server.Bootstrap.Wiring.Reads.{ReadsOnce, read_tool-ReadsOnce}
use lumen_mcp_server.Authorize.{check}
use lumen_mcp_server.Config.Loaded.{authorize_of}
use lumen_mcp_server.Gateway.Latency.Fixture.{wet}
use lumen_mcp_server.Bootstrap.Wiring.Writes.{GuardsWrites, new-GuardsWrites}

abbrev app : App ℕ (Unit {0} × List Exchange) Unit
app = assembled (watched outside) config (memory new_memory)

resource_run : app.handler.resource ≡ "http://127.0.0.1:9280/mcp"
unfolding lumen_mcp_server.Bootstrap.Wiring.resource_of lumen_mcp_server.Base.trim_right_char
resource_run = refl

app_run : new (watched outside) config ≡ ok app
unfolding new lumen_mcp_server.Audit.Backend.new_audit_store
app_run = refl

-- No key was fetched yet.
abbrev cold : Running
cold = (
  record { cached_at = 0; cached_oct_hs = [] },
  λ n. record {
    read_at = 100;
    stored_at = 101;
    unix_now = pos 1000;
    choice = 0;
    response = ok (record {
      status = 200;
      decoded = ok (record { kty = "oct"; k = "s"; kid = "k1"; alg = "HS256" } ∷ []);
    });
  },
  0,
)

abbrev start : State Running (Unit {0} × List Exchange) (Backend Unit)
start = record { verifier = cold; gateway = (tt, []); audit = memory new_memory }

abbrev deletes : Http.Request (Fields ℕ)
deletes = record {
  method = "POST";
  authorization = "Bearer h.p.s";
  limit = "";
  body = some ("delete_route", field "id" (str "1") end);
  trace_id = "";
}

-- A call that writes is sent.
deletes_run : length (handle_invoke app.handler 0 deletes start).1.gateway.1 ≡ 1
unfolding handle_invoke lumen_mcp_server.Invoke.append lumen_mcp_server.Gateway.Client.receive
    lumen_mcp_server.Gateway.Client.answered lumen_mcp_server.Gateway.Client.prepare
    lumen_mcp_server.Authorize.has_any_scope lumen_mcp_server.Authorize.has_scope
    lumen_mcp_server.Base.lower_eq lumen_mcp_server.Gateway.Client.invoke_gateway_tool
    lumen_mcp_server.Verifier.Token.read_token lumen_mcp_server.Verifier.Token.read_parts
    lumen_mcp_server.Invoke.invoke_tool lumen_mcp_server.Bootstrap.Wiring.service_of
    lumen_mcp_server.Verifier.Token.token_verifier lumen_mcp_server.Verifier.Token.verify_bearer
    lumen_mcp_server.Verifier.Token.token_of lumen_mcp_server.Verifier.Token.aud_contains
    lumen_mcp_server.Base.trim_space lumen_mcp_server.Base.trim_prefix lumen_mcp_server.Base.split
    lumen_mcp_server.Base.equal_fold lumen_mcp_server.Base.assign lookup
    lumen_mcp_server.Base.fields lumen_mcp_server.Verifier.select_hmac_secret
    lumen_mcp_server.Verifier.load_jwks_keys lumen_mcp_server.Verifier.is_fresh
    lumen_mcp_server.Verifier.same_bytes lumen_mcp_server.Json.items
    lumen_mcp_server.Authorize.check lumen_mcp_server.Gateway.Latency.Tune.latency_client
    lumen_mcp_server.Gateway.Client.gateway_client lumen_mcp_server.Gateway.Client.invoke_tool
    lumen_mcp_server.Gateway.Request.build_request lumen_mcp_server.Gateway.Args.as_string
    lumen_mcp_server.Json.get lumen_mcp_server.Gateway.Request.kind_of
    lumen_mcp_server.Base.contains
deletes_run = refl

new-GuardsWrites_example : GuardsWrites outside config refl 0 cold tt (memory new_memory) app
new-GuardsWrites_example =
    new-GuardsWrites outside config refl 0 cold tt (memory new_memory) app app_run

abbrev writer : List String
writer = "mcp:tools" ∷ "routes:write" ∷ []

writer_allowed : (check (authorize_of config) writer "tune_upstream_timeout").allowed ≡ true
unfolding check lumen_mcp_server.Authorize.has_any_scope lumen_mcp_server.Authorize.has_scope lookup
    lumen_mcp_server.Base.equal_fold lumen_mcp_server.Base.lower_eq lumen_mcp_server.Base.trim_space
writer_allowed = refl

client-IfWritten_example :
    IfWritten
      (IsWriter writer)
      ((service_of (watched outside) config).gateway.invoke_tool
        (tt, [])
        "tune_upstream_timeout"
        wet).1.1
client-IfWritten_example =
    client-IfWritten outside config refl writer wet "tune_upstream_timeout" tt writer_allowed

abbrev analysis : Definition
analysis =
    tool "analyze_latency" "Analyze upstream latency from /metrics and suggest timeout values"
      "read"

at_analysis : Any (λ d. analysis ≡ d) catalog
at_analysis = inr (
    inr (
      inr (
        inr (
          inr (
            inr (
              inr (
                inr (
                  inr (
                    inr (
                      inr (
                        inr (
                          inr (inr (inr (inr (inr (inr (inr (inr (inr (inl refl)))))))))))))))))))))

read_tool-ReadsOnce_example :
    ReadsOnce
      ((service_of (watched outside) config).gateway.invoke_tool (tt, []) "analyze_latency" wet).1.1
read_tool-ReadsOnce_example = read_tool-ReadsOnce outside config analysis wet tt at_analysis refl

-- Times are kept in whole thousands, as TIMESTAMPTZ keeps microseconds.
abbrev rounded : Event → Event
rounded e = record e { at = (e.at / 1000) * 1000 }

-- A database that keeps its rows in a list.
abbrev rows : Database (List Event)
rows = record {
  insert_row = λ d e. (none, d ++ rounded e ∷ []);
  select_rows = λ d n. (ok (record { scans = map ok (take n (reverse d)); failure = none }), d);
  can_make = λ n. ltb n 1000000;
}

selected_rows :
    (d : List Event) (n : ℕ) (r : Rows)
    → (rows.select_rows d n).0 ≡ ok r
    → r.scans ≡ map ok (take n (reverse d))
selected_rows d n r h = ground arith

rows-IsTable : IsTable rows (λ d. d)
rows-IsTable = record {
  kept = rounded;
  kept_same = λ e. refl;
  inserted = λ d e h. refl;
  not_inserted = λ d e m h. cc h;
  selected = λ d n r h k. selected_rows d n r h;
  unchanged = λ d n. refl;
}

abbrev empty_rows : Driver (List Event)
empty_rows = record { open_handle = λ s. ok []; ping = λ d. none; init_schema = λ d. none }

abbrev with_rows : Outside ℕ Unit (List Event)
with_rows = record {
  floats = outside.floats;
  json = outside.json;
  net = outside.net;
  quote = outside.quote;
  order = outside.order;
  tokens = outside.tokens;
  sqlite_driver = empty_rows;
  postgres_driver = empty_rows;
  database = rows;
}

backend_store-Refines_example :
    Refines (backend_store with_rows) (log_of (λ d. d)) (kept_by rows-IsTable.kept)
backend_store-Refines_example = backend_store-Refines with_rows (λ d. d) rows-IsTable
