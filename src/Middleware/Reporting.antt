-- ===== src/Middleware/Reporting.antt =====
-- internal/interfaces/http/middleware: recovery.go, access_log.go and metrics.go, and the counters of
-- internal/platform/observability/metrics.go. A handler either ends or panics, and has written a status
-- by then or not; it writes none after the first. A duration is a number of milliseconds that the clock gives; the counters are of 64
-- bits.
use lumen_mcp_server.Base.{
  ℕ, ◌+◌, ◌≤◌, ◌<◌, String, Option, none, some, List, [], ◌∷◌, ◌++◌, leb, if◌then◌else◌, ◌≡◌, refl,
  arith, ◌^◌, ◌%◌,
}

pub record Metrics : Type 0 where
  pub http_requests : ℕ
  pub http_errors : ℕ
  pub tool_invokes : ℕ
  pub tool_denials : ℕ
  pub latency_ms : ℕ

-- `Add` on a `uint64`
abbrev pub add_wrapping : ℕ → ℕ → ℕ
add_wrapping n k = (n + k) % 2 ^ 64

unfoldable pub observe_http : ℕ → ℕ → Metrics → Metrics
observe_http status ms m = record m {
  http_requests = add_wrapping m.http_requests 1;
  latency_ms = add_wrapping m.latency_ms ms;
  http_errors = if leb 400 status then add_wrapping m.http_errors 1 else m.http_errors;
}

inc_tool_invoke : Metrics → Metrics
inc_tool_invoke m = record m { tool_invokes = add_wrapping m.tool_invokes 1 }

inc_tool_deny : Metrics → Metrics
inc_tool_deny m = record m { tool_denials = add_wrapping m.tool_denials 1 }

pub data Ran : Type 0 where
  finished : Option ℕ → Ran
  panicked : Option ℕ → Ran

abbrev pub Handling : Type 0 → Type 0
Handling S = S → Ran × S

-- the status that `statusRecorder` keeps
abbrev pub recorded_status : Option ℕ → ℕ
recorded_status none = 200
recorded_status (some status) = status

counted : ℕ → Ran → Metrics → Metrics
unfolding observe_http
counted ms (panicked status) m = m
counted ms (finished status) m = observe_http (recorded_status status) ms m

-- the method, the path, the status and the duration of a request
pub record Line : Type 0 where
  pub method : String
  pub path : String
  pub status : ℕ
  pub duration_ms : ℕ

logged : String → String → ℕ → Ran → List Line → List Line
logged method path ms (panicked status) log = log
logged method path ms (finished status) log =
    log
    ++ record { method = method; path = path; status = recorded_status status; duration_ms = ms }
      ∷ []

-- `http.Error` after a panic, whose status is void if one was written before
recovered : Ran → Ran
recovered (panicked none) = finished (some 500)
recovered (panicked (some status)) = finished (some status)
recovered (finished status) = finished status

unfoldable pub metrics : {S : Type 0} → ℕ → Handling S → Handling (S × Metrics)
unfolding counted
metrics ms next (st, m) = let (ran, st') = next st in (ran, (st', counted ms ran m))

unfoldable pub access_log :
    {S : Type 0} → String → String → ℕ → Handling S → Handling (S × List Line)
unfolding logged
access_log method path ms next (st, log) =
    let (ran, st') = next st in (ran, (st', logged method path ms ran log))

unfoldable pub recovery : {S : Type 0} → Handling S → Handling S
unfolding recovered
recovery next st = let (ran, st') = next st in (recovered ran, st')

-- the three as the router puts them around a handler: recovery first, then the log, then the counters
unfoldable pub reporting :
    {S : Type 0} → String → String → ℕ → ℕ → Handling S → Handling ((S × Metrics) × List Line)
unfolding recovery access_log metrics
reporting method path log_ms ms next = recovery (access_log method path log_ms (metrics ms next))

-- The counters after a request of some status and duration: one request more, one error more if the
-- status is 400 or more, and nothing else but the time.
pub record IsCounted (status ms : ℕ) (m m' : Metrics) : Type 0 where
  pub requests : m'.http_requests ≡ (m.http_requests + 1) % 2 ^ 64
  pub fine : status < 400 → m'.http_errors ≡ m.http_errors
  pub bad : 400 ≤ status → m'.http_errors ≡ (m.http_errors + 1) % 2 ^ 64
  pub time : m'.latency_ms ≡ (m.latency_ms + ms) % 2 ^ 64
  pub invokes : m'.tool_invokes ≡ m.tool_invokes
  pub denials : m'.tool_denials ≡ m.tool_denials

-- What comes of a request, by what its handler does.
pub data Reported {S : Type 0} (method path : String) (log_ms ms : ℕ) (m : Metrics)
    (log : List Line) : Ran × S → Ran × ((S × Metrics) × List Line) → Type 0 where
  lost :
      (written : Option ℕ) (status : ℕ) (st : S)
      → (written ≡ none → status ≡ 500)
      → ((early : ℕ) → written ≡ some early → status ≡ early)
      → Reported method path log_ms ms m log
          (panicked written, st)
          (finished (some status), ((st, m), log))
  kept :
      (written : Option ℕ) (status : ℕ) (st : S) (m' : Metrics)
      → (written ≡ none → status ≡ 200)
      → ((early : ℕ) → written ≡ some early → status ≡ early)
      → IsCounted status ms m m'
      → Reported method path log_ms ms m log
          (finished written, st)
          (
            finished written,
            (
              (st, m'),
              log
                  ++ record { method = method; path = path; status = status; duration_ms = log_ms }
                    ∷ [],
            ),
          )

observe_http-IsCounted :
    (status ms : ℕ) (m : Metrics) → IsCounted status ms m (observe_http status ms m)
unfolding observe_http
observe_http-IsCounted status ms m = record {
  requests = refl;
  fine = λ below. ground arith;
  bad = λ above. ground arith;
  time = refl;
  invokes = refl;
  denials = refl;
}

reported :
    {S : Type 0} (method path : String) (log_ms ms : ℕ) (m : Metrics) (log : List Line) (ran : Ran)
    (st : S)
    → Reported method path log_ms ms m log
        (ran, st)
        (recovered ran, ((st, counted ms ran m), logged method path log_ms ran log))
unfolding recovered counted logged
reported method path log_ms ms m log (panicked none) st = lost none 500 st (λ e. refl) (λ s e. cc e)
reported method path log_ms ms m log (panicked (some status)) st =
    lost (some status) status st (λ e. cc e) (λ s e. cc e)
reported method path log_ms ms m log (finished none) st =
    kept none 200 st _ (λ e. refl) (λ s e. cc e) (observe_http-IsCounted 200 ms m)
reported method path log_ms ms m log (finished (some status)) st =
    kept (some status) status st _ (λ e. cc e) (λ s e. cc e) (observe_http-IsCounted status ms m)

-- A request whose handler panics is answered with 500, or with the status that was written before, and
-- is neither counted nor logged. Any other is answered as the handler does, logged with its status,
-- which is 200 if none was written, and counted once, and once as an error if its status is 400 or
-- more.
pub reporting-Reported :
    {S : Type 0} (method path : String) (log_ms ms : ℕ) (next : Handling S) (st : S) (m : Metrics)
    (log : List Line)
    → Reported method path log_ms ms m log
        (next st)
        (reporting method path log_ms ms next ((st, m), log))
unfolding reporting
reporting-Reported method path log_ms ms next st m log =
    reported method path log_ms ms m log (next st).0 (next st).1
