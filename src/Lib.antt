-- ===== src/Lib.antt =====
-- A verification library for the Lumen MCP server, a program that lets an agent administer an API
-- gateway through tools: a call carries a bearer token, is authorised by scopes, becomes one HTTP
-- request to the gateway (a few for the tools that read its metrics and tune timeouts), and is recorded
-- in an audit log.
--
-- The parts, and the code they model (paths from the root of the repository):
--   Domain, Ports      internal/domain and internal/application/ports/ports.go: the values that are
--                      exchanged, and the ports as records of operations on an adapter's own state
--   Authorize          internal/application/authorize/service.go: Check, hasAnyScope, hasScope
--   Invoke             internal/application/invoke/service.go: InvokeTool over any adapters
--   Verifier           internal/infrastructure/jwkscache/verifier.go: the key cache (Verifier), reading
--                      and checking a token (Verifier/Token)
--   Gateway            internal/infrastructure/gatewayclient/http_client.go: argument readers (Args, also
--                      those of latency_tools.go), buildRequest (Request), the exchange (Client), and the
--                      parts of net/url that they use (Url)
--   Gateway/Latency    internal/infrastructure/gatewayclient/latency_tools.go: reading the metrics
--                      (Metrics), quantiles and timeouts (Histogram), the entries and the choice among
--                      them (Entries), AnalyzeLatency and TuneUpstreamTimeout (Tune)
--   OauthLogin         internal/infrastructure/oauthlogin: newPKCE (Pkce), registerClient (Dcr), and
--                      Login with the callback's handler and the exchange of the code (Login)
--   Audit              internal/infrastructure/auditstore: the store in memory (Memory), the store in a
--                      database (Sql), the choice between them (Backend)
--   Config             internal/config: ApplyDefaults, Validate, Load
--   Http               internal/interfaces/http/handlers/handlers.go: the handlers; and
--                      routes/router.go beside it: the table of paths (Routes)
--   Middleware         internal/interfaces/http/middleware: chain.go, cors.go, request_id.go; and recovery,
--                      access log and counters, with internal/platform/observability (Reporting)
--   Mcp                internal/interfaces/mcp: the handler of one tool and the guard over HTTP of
--                      server.go, the schemas of schemas.go with the tools' registration (Schemas)
--   Bootstrap          internal/bootstrap/app.go: the catalogue of tools, New, which joins the parts
--                      (Wiring), and RunStdio, Run and cmd/lumen-mcp-server/main.go (Run)
--   Base, Json         shared helpers: lists, texts, Go's maps, integers, decimal numerals, errors, and
--                      Go's dynamically typed values
--
-- How the parts meet: Invoke takes the ports as records. The stores of Audit, the client of Gateway and
-- the verifier of Verifier are such records; Http and Mcp call Invoke; Bootstrap and Config give the
-- scope rules that Authorize reads. Bootstrap/Wiring puts them all together, over a record of what
-- comes from outside.
--
-- A stateful operation takes the state and returns the new one; an error is a value of Result or
-- Option with the code's message. A call reads its surroundings (the clock, the answer of a server)
-- from an argument. Texts are sequences of code points. Comparison up to case is by Unicode's simple
-- folding (Base/Folding has its table), and lower case is modelled where the result is ASCII, which is
-- what the code compares it with. A Go map is its entries; where the code iterates over one, the first
-- entry to be met, or the order, is an argument. Sorting is insertion; ties keep the order of the
-- iteration before it, which is itself any. An `int` is an integer, and `strconv.Atoi` keeps its
-- bounds at 64 bits.
--
-- Parameters: encoding/json, the MCP library, encoding/base64, HMAC, SHA-256, random bytes, the type
-- of float64 values with its arithmetic, its order and its conversions, the database drivers, the HTTP
-- exchange, the browser, YAML and the clock. A theorem that sorts floats asks for an order of those
-- that it sorts, which NaN has no place in. A database comes with the capacities for which `make`
-- gives a slice of events, and its table keeps of an event all but perhaps the precision of its time.
-- A panic is `none`, in a listing of events and in the choice of an entry. Go's own net/url, strings
-- and strconv are modelled where the code uses them.
--
-- Bounds and fuel: loops are structural recursion on lists. Writing a numeral recurses on fuel, one
-- step for each digit, and is given the number itself, which is at least its number of digits.
--
-- Not modelled: the MCP library's transports, the texts of the log, the session service (a stub),
-- flags and signals, and the encoding of a response's body: where the result of a call cannot be
-- encoded as JSON, for instance since it holds a NaN, the code ends a response of status 200 with no
-- body. One operation runs at a time, so the locks of the cache and of the store in memory have no
-- counterpart; of the callbacks of a login, the first that arrives is the one that it takes.
pub mod Base
pub mod Domain
pub mod Ports
pub mod Json
pub mod Authorize
pub mod Audit
pub mod Invoke
pub mod Verifier
pub mod Gateway
pub mod Bootstrap
pub mod Config
pub mod Http
pub mod Mcp
pub mod Middleware
pub mod OauthLogin
