-- ===== src/Bootstrap/Run/Ends.antt =====
-- How a run of the application ends.
use lumen_mcp_server.Base.{
  String, Option, none, some, List, [], ◌∷◌, Result, ok, err, Bool-cases, ◌==◌, ◌<>◌, ◌≡◌, ◌≢◌, inl,
  inr, eq_iff, ok,
}
use lumen_mcp_server.OauthLogin.{TokenResult}
use lumen_mcp_server.Bootstrap.Wiring.{App}
use lumen_mcp_server.Bootstrap.Run.{
  RunError, failed, Ended, context_done, server_closed, server_failed, Host, bearer_of, cleanup,
  after_login, run_stdio, after_end, run,
}

-- One thing that a run does.
pub data Step : Type 0 where
  logged_in : Result String TokenResult → Step
  served : String → Step
  ended : Ended → Step
  stopped closed : Step

-- The same surroundings, which also keep what is done, the last first; a server is kept by its static
-- bearer text.
abbrev pub kept : {F W D H : Type 0} → Host F W D H → Host F W D (H × List Step)
kept host = record {
  login = λ (h, log) cfg. let (r, h') = host.login h cfg in (r, (h', logged_in r ∷ log));
  serve_stdio = λ (h, log) mcp.
      let (r, h') = host.serve_stdio h mcp in (r, (h', served (mcp 0).static_bearer ∷ log));
  ended = λ (h, log). let (e, h') = host.ended h in (e, (h', ended e ∷ log));
  shutdown = λ (h, log). (host.shutdown h, stopped ∷ log);
  close_audit = λ (h, log). let (r, h') = host.close_audit h in (r, (h', closed ∷ log));
}

-- A run over stdio, by the configured bearer text, the last step first: calls are served with that
-- text, or, without one, with the token of a login; a login that fails ends the run. At the end, and
-- once, the store is closed.
pub data Stdio (bearer : String) : Option RunError → List Step → Type 0 where
  configured : (r : Option RunError) → bearer ≢ "" → Stdio bearer r (closed ∷ served bearer ∷ [])
  by_login :
      (r : Option RunError) (token : TokenResult)
      → bearer ≡ ""
      → Stdio bearer r
          (closed ∷ served ("Bearer " <> token.access_token) ∷ logged_in (ok token) ∷ [])
  no_login :
      (e : String)
      → bearer ≡ ""
      → Stdio bearer (some (failed ("oauth login failed: " <> e))) (closed ∷ logged_in (err e) ∷ [])

-- A run over HTTP, the last step first: the server is shut down if the context ends first, and at the
-- end, and once, the store is closed.
pub data Http : Option RunError → List Step → Type 0 where
  by_context : (e : RunError) → Http (some e) (closed ∷ stopped ∷ ended (context_done e) ∷ [])
  by_shutdown : Http none (closed ∷ ended server_closed ∷ [])
  by_failure : (e : RunError) → Http (some e) (closed ∷ ended (server_failed e) ∷ [])

module _ {F W D H : Type 0} (host : Host F W D H) (app : App F W D) where
  after_login-Stdio :
      (r : Result String TokenResult) (h : H)
      → bearer_of host app ≡ ""
      → let ran = cleanup (kept host) (after_login (kept host) app (r, (h, logged_in r ∷ []))) in
        Stdio (bearer_of host app) ran.0 ran.1.1
  unfolding cleanup after_login
  after_login-Stdio (err e) h blank = no_login e blank
  after_login-Stdio (ok token) h blank = by_login _ token blank

  run_stdio-Stdio :
      (h : H)
      → let ran = run_stdio (kept host) app (h, []) in Stdio (bearer_of host app) ran.0 ran.1.1
  unfolding run_stdio cleanup
  run_stdio-Stdio h = elim (Bool-cases (bearer_of host app == "")) [
    | inl blank ↦ rw blank (after_login-Stdio _ _ ((eq_iff (bearer_of host app) "").0 blank))
    | inr full ↦ rw full (configured _ (λ e. cc (full, (eq_iff (bearer_of host app) "").1 e)))
  ]

  after_end-Http :
      (e : Ended) (h : H)
      → let ran = cleanup (kept host) (after_end (kept host) (e, (h, ended e ∷ []))) in
        Http ran.0 ran.1.1
  unfolding cleanup after_end
  after_end-Http (context_done e) h = by_context e
  after_end-Http server_closed h = by_shutdown
  after_end-Http (server_failed e) h = by_failure e

  -- A run over stdio serves calls with the configured bearer text, or, where there is none, with the
  -- token of a login that succeeds; if the login fails, nothing is served and the run fails. A run
  -- over HTTP shuts the server down if the context ends first. Each closes the store of events, once,
  -- as the last thing that it does.
  pub run-Ends :
      (h : H)
      → let over_stdio = run_stdio (kept host) app (h, []) in
        let over_http = run (kept host) (h, []) in
        Stdio (bearer_of host app) over_stdio.0 over_stdio.1.1 × Http over_http.0 over_http.1.1
  unfolding run
  run-Ends h = (run_stdio-Stdio h, after_end-Http _ _)
