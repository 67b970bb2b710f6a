-- ===== src/Bootstrap/Run/Tests.antt =====
-- Runs of an application, and the property of runs.
use lumen_mcp_server.Base.{ℕ, true, false, none, some, [], ◌∷◌, ok, err, ◌≡◌, refl, ok}
use lumen_mcp_server.Audit.Memory.{new_memory}
use lumen_mcp_server.Audit.Backend.{memory}
use lumen_mcp_server.Bootstrap.Wiring.{App, assembled}
use lumen_mcp_server.Bootstrap.Wiring.Fixture.{outside, config}
use lumen_mcp_server.Bootstrap.Run.{
  canceled, context_done, Host, exited, panicked, bearer_of, run_stdio, run, main,
}
use lumen_mcp_server.Bootstrap.Run.Ends.{kept, stopped, closed, ended, Stdio, Http, run-Ends}

-- The login is cancelled, and so is the server.
abbrev host : Host ℕ Unit Unit Unit
host = record {
  login = λ h cfg. (err "context canceled", h);
  serve_stdio = λ h mcp. (some canceled, h);
  ended = λ h. (context_done canceled, h);
  shutdown = λ h. h;
  close_audit = λ h. (none, h);
}

abbrev app : App ℕ Unit Unit
app = assembled outside config (memory new_memory)

http_run :
    run (kept host) (tt, [])
    ≡ (some canceled, (tt, closed ∷ stopped ∷ ended (context_done canceled) ∷ []))
unfolding run
http_run = refl

-- A process that is interrupted while it serves exits, but one that is interrupted during the login
-- panics, since the login's error is wrapped.
main_run : (main host outside false tt (ok config)).0 ≡ exited
unfolding main lumen_mcp_server.Audit.Backend.new_audit_store
main_run = refl

interrupted_login :
    (main host outside true tt
      (ok (record config { auth = record (config.auth) { static_bearer = "" } }))).0
    ≡ panicked "oauth login failed: context canceled"
unfolding main lumen_mcp_server.Audit.Backend.new_audit_store
interrupted_login = refl

run-Ends_example :
    Stdio
      (bearer_of host app)
      (run_stdio (kept host) app (tt, [])).0
      (run_stdio (kept host) app (tt, [])).1.1
    × Http (run (kept host) (tt, [])).0 (run (kept host) (tt, [])).1.1
run-Ends_example = run-Ends host app tt
