-- ===== src/Invoke/Tests.antt =====
-- Runs of the invoke service over the store in memory, and its properties at concrete inputs.
use lumen_mcp_server.Base.{
  ℕ, String, ◌≡◌, refl, List, [], ◌∷◌, ◌++◌, map, ok, err, ◌⊎◌, ◌==◌, if◌then◌else◌, lookup,
  trim_space, equal_fold, lower_eq,
}
use lumen_mcp_server.Domain.{Event, Claims}
use lumen_mcp_server.Ports.{TokenVerifier, GatewayAdminClient}
use lumen_mcp_server.Audit.Memory.{MemoryStore, new_memory, memory_store}
use lumen_mcp_server.Authorize
use lumen_mcp_server.Authorize.{check, has_any_scope, has_scope}
use lumen_mcp_server.Invoke
use lumen_mcp_server.Invoke.{State, InvokeError, event, invoke_tool}
use lumen_mcp_server.Invoke.Audited.{verdict_of, text_of, invoke_tool-audit}
use lumen_mcp_server.Invoke.Guarded.{Entitled, Refused, invoke_tool-Entitled}
use lumen_mcp_server.Invoke.Sequence.{Call, service, serve, serve-log, summary}

abbrev claims : Claims
claims = record { subject = "alice"; client = "cli"; scopes = "mcp:tools" ∷ "read" ∷ [] }

abbrev verifier : TokenVerifier ℕ
verifier = record {
  verify_bearer = λ v bearer. if bearer == "good" then (ok claims, v) else (err "bad token", v);
}

-- A gateway that keeps the calls it receives.
abbrev gateway : GatewayAdminClient (List String) String ℕ
gateway = record { invoke_tool = λ g tool_name args. (ok 7, g ++ tool_name ∷ []) }

abbrev rules : Authorize.Service
rules = record {
  tool_scope_map = ("list_routes", "read") ∷ ("put_route", "gateway:write") ∷ [];
  required_scopes = "mcp:tools" ∷ [];
}

abbrev start : State ℕ (List String) MemoryStore
start = record { verifier = 0; gateway = []; audit = new_memory }

abbrev svc : Invoke.Service ℕ (List String) MemoryStore String ℕ
svc = service verifier rules gateway

listed : (invoke_tool svc 5 "list_routes" "" "t1" "good" start).0 ≡ ok 7
unfolding invoke_tool check has_any_scope has_scope lookup equal_fold lower_eq trim_space
    memory_store
listed = refl

kept_out : (invoke_tool svc 5 "put_route" "" "t1" "good" start).1.gateway ≡ []
unfolding invoke_tool check has_any_scope has_scope lookup equal_fold lower_eq trim_space
    memory_store Invoke.append
kept_out = refl

invoke_tool-Entitled_example :
    (Entitled svc 5 "put_route" "" "t1" "good" start
      × ((invoke_tool svc 5 "put_route" "" "t1" "good" start).1.gateway ≡ "put_route" ∷ [])
      × ((invoke_tool svc 5 "put_route" "" "t1" "good" start).0 ≡ ok 7))
    ⊎ ((¬ Entitled svc 5 "put_route" "" "t1" "good" start)
        × ((invoke_tool svc 5 "put_route" "" "t1" "good" start).1.gateway ≡ [])
        × Refused svc 5 "put_route" "" "t1" "good" start
            (invoke_tool svc 5 "put_route" "" "t1" "good" start).0)
invoke_tool-Entitled_example = invoke_tool-Entitled svc 5 "put_route" "" "t1" "good" start

invoke_tool-audit_example :
    (invoke_tool svc 5 "list_routes" "" "t1" "bad" start).1.audit
    ≡ (svc.audit.append new_memory (
        event 5 "" "" "list_routes"
          (verdict_of (invoke_tool svc 5 "list_routes" "" "t1" "bad" start).0)
          "t1"
          (text_of (invoke_tool svc 5 "list_routes" "" "t1" "bad" start).0))).1
invoke_tool-audit_example = invoke_tool-audit svc 5 "list_routes" "" "t1" "bad" start

abbrev calls : List (Call String)
calls =
    record { now = 1; bearer = "good"; tool_name = "list_routes"; args = ""; trace_id = "a" }
    ∷ record { now = 2; bearer = "bad"; tool_name = "put_route"; args = ""; trace_id = "b" }
    ∷ []

serve-log_example :
    (added : List Event) × ((serve verifier rules gateway calls start).audit.events
      ≡ start.audit.events ++ added)
    × (map summary added ≡ (1, "list_routes", "a") ∷ (2, "put_route", "b") ∷ [])
serve-log_example = serve-log verifier rules gateway calls start
