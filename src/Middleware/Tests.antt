-- ===== src/Middleware/Tests.antt =====
-- Tests: a chain of two middleware, and two origins.
use lumen_mcp_server.Base.{◌↔◌, ◌≢◌, ◌⊎◌, suc, ◌≡◌, String, lookup, ℕ, refl, some, none, [], ◌∷◌}
use lumen_mcp_server.Middleware.{Request, Headers, Handler, chain, cors, request_id}
use lumen_mcp_server.Middleware.Laws.{IsAllowed, chain-first, cors-allows}
use lumen_mcp_server.Middleware.Reporting.{
  finished, Handling, Metrics, Reported, reporting, reporting-Reported,
}

abbrev counting : Handler ℕ
counting r w n = (record { status = 200; headers = w }, suc n)

abbrev from : String → String → Request
from method origin = record { method = method; origin = origin; request_id = ""; trace_id = "" }

abbrev blank : Headers
blank = []

no_headers : lookup "Access-Control-Allow-Origin" blank ≡ none
unfolding lookup
no_headers = refl

goes_on : (chain counting (cors ∷ request_id "r1" ∷ []) (from "GET" "http://evil") blank 0).1 ≡ 1
unfolding chain cors request_id
goes_on = refl

chain-first_example :
    (chain counting [] ≡ counting)
    × (chain counting (cors ∷ request_id "r1" ∷ []) ≡ cors (chain counting (request_id "r1" ∷ [])))
chain-first_example = chain-first counting cors (request_id "r1" ∷ [])

cors-allows_example :
    (w' : Headers) × ((((from "GET" "http://localhost:5173").method ≡ "OPTIONS")
        × (cors counting (from "GET" "http://localhost:5173") blank 0
            ≡ (record { status = 204; headers = w' }, 0)))
      ⊎ (((from "GET" "http://localhost:5173").method ≢ "OPTIONS")
          × (cors counting (from "GET" "http://localhost:5173") blank 0
              ≡ counting (from "GET" "http://localhost:5173") w' 0)))
    × ((value : String)
        → (lookup "Access-Control-Allow-Origin" w' ≡ some value)
          ↔ ((value ≡ "http://localhost:5173") × IsAllowed "http://localhost:5173"))
cors-allows_example = cors-allows counting (from "GET" "http://localhost:5173") blank 0 no_headers

-- A handler that refuses a request, after it has counted it.
abbrev refusing : Handling ℕ
refusing n = (finished (some 403), suc n)

abbrev no_metrics : Metrics
no_metrics = record {
  http_requests = 0;
  http_errors = 0;
  tool_invokes = 0;
  tool_denials = 0;
  latency_ms = 0;
}

refusal_counted :
    (reporting "GET" "/admin/audit" 3 2 refusing ((0, no_metrics), [])).1.0.1.http_errors ≡ 1
unfolding reporting
refusal_counted = refl

reporting-Reported_example :
    Reported "GET" "/admin/audit" 3 2 no_metrics []
      (refusing 0)
      (reporting "GET" "/admin/audit" 3 2 refusing ((0, no_metrics), []))
reporting-Reported_example = reporting-Reported "GET" "/admin/audit" 3 2 refusing 0 no_metrics []
