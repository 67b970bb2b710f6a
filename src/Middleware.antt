-- ===== src/Middleware.antt =====
-- internal/interfaces/http/middleware: chain.go, cors.go and request_id.go. A handler
-- takes the request, the headers that are set so far and its state; the header names are in Go's
-- canonical spelling. The random bytes of an id are an argument.
pub mod Laws
pub mod Reporting
mod Tests
use lumen_mcp_server.Base.{String, ℕ, List, [], ◌∷◌, reverse, any, assign, if◌then◌else◌, ◌==◌}

pub record Request : Type 0 where
  pub method : String
  pub origin : String
  pub request_id : String
  pub trace_id : String

abbrev pub Headers : Type 0
Headers = List (String × String)

pub record Reply : Type 0 where
  pub status : ℕ
  pub headers : Headers

abbrev pub Handler : Type 0 → Type 0
Handler S = Request → Headers → S → Reply × S

abbrev pub Middleware : Type 0 → Type 0
Middleware S = Handler S → Handler S

-- the loop over the middleware, from the last to the first
unfoldable pub wrap : {S : Type 0} → Handler S → List (Middleware S) → Handler S
wrap h [] = h
wrap h (m ∷ ms) = wrap (m h) ms

unfoldable pub chain : {S : Type 0} → Handler S → List (Middleware S) → Handler S
unfolding wrap
chain h ms = wrap h (reverse ms)

abbrev pub allowed_origins : List String
allowed_origins = "http://127.0.0.1:5173" ∷ "http://localhost:5173" ∷ []

unfoldable pub allow_origin : String → Headers → Headers
unfolding assign
allow_origin origin w =
    if origin == ""
    then w
    else if any (λ o. origin == o) allowed_origins
    then assign "Vary" "Origin" (
        assign "Access-Control-Allow-Credentials" "true"
          (assign "Access-Control-Allow-Origin" origin w))
    else w

unfoldable pub cors_headers : String → Headers → Headers
unfolding allow_origin
cors_headers origin w = assign "Access-Control-Expose-Headers" "X-Request-Id" (
    assign "Access-Control-Allow-Headers"
      "Authorization, Content-Type, Accept, X-API-KEY, X-Request-Id"
      (assign "Access-Control-Allow-Methods" "GET, POST, PUT, PATCH, DELETE, OPTIONS"
        (allow_origin origin w)))

unfoldable pub cors : {S : Type 0} → Middleware S
unfolding cors_headers
cors next r w st =
    if r.method == "OPTIONS"
    then (record { status = 204; headers = cors_headers r.origin w }, st)
    else next r (cors_headers r.origin w) st

abbrev pub id_of : String → Request → String
id_of random r = if r.request_id == "" then random else r.request_id

unfoldable pub request_id : {S : Type 0} → String → Middleware S
unfolding assign
request_id random next r w st =
    next (record r { trace_id = id_of random r }) (assign "X-Request-Id" (id_of random r) w) st
