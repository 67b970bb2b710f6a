-- ===== src/Bootstrap/Run.antt =====
-- internal/bootstrap/app.go and cmd/lumen-mcp-server/main.go: running the application over stdio or
-- HTTP, and what the process makes of the end. What serves the calls, the login and the closing of the
-- store are a record of operations. Of the context and the HTTP server, the one that ends first is an
-- answer of the surroundings. The log lines are left out.
pub mod Ends
mod Tests
use lumen_mcp_server.Base.{
  ℕ, zero, suc, ◌+◌, ◌-◌, ◌≤◌, ◌<◌, String, Bool, true, false, not, ◌&&◌, ◌||◌, Option, none, some,
  List, [], ◌∷◌, ◌++◌, map, length, ℤ, pos, negsuc, lt_int, not_pos, to_nat, Result, ok, err,
  map_err, Result-cases, Option-cases, Bool-cases, ltb, leb, eqb, if◌then◌else◌, ◌==◌, ◌<>◌, lookup,
  assign, itoa, trim_space, trim_slashes, trim_prefix, has_prefix, split, fields, ◌≡◌, ◌≢◌, ◌↔◌,
  ◌⊎◌, inl, inr, refl, sym, ap, ◌∙◌, arith, eq_iff, All, Any, any, trim_right_char, ok,
}
use lumen_mcp_server.Json.{Fields}
use lumen_mcp_server.Config.{Config}
use lumen_mcp_server.Invoke.{State}
use lumen_mcp_server.Audit.Backend.{Backend}
use lumen_mcp_server.Verifier.Token.{Running}
use lumen_mcp_server.Mcp
use lumen_mcp_server.OauthLogin
use lumen_mcp_server.OauthLogin.{TokenResult}
use lumen_mcp_server.Bootstrap.Wiring.{Outside, App, new}

-- `context.Canceled` itself, or any other error.
pub data RunError : Type 0 where
  canceled : RunError
  failed : String → RunError

-- What ends `Run`: the context, the server after a shutdown, or a failure of the server.
pub data Ended : Type 0 where
  context_done : RunError → Ended
  server_closed : Ended
  server_failed : RunError → Ended

-- The MCP server of an application, at the time of a call.
abbrev pub Serving : Type 0 → Type 0 → Type 0 → Type 0
Serving F W D = ℕ → Mcp.Server (State Running W (Backend D)) (Fields F) (Fields F)

-- What running an application does to its surroundings, whose state is `H`: `login` is that of
-- OauthLogin, `serve_stdio` the MCP library's, `ended` starts the HTTP server and waits.
pub record Host (F W D H : Type 0) : Type 0 where
  pub login : H → OauthLogin.Config → Result String TokenResult × H
  pub serve_stdio : H → Serving F W D → Option RunError × H
  pub ended : H → Ended × H
  pub shutdown : H → H
  pub close_audit : H → Option String × H

-- What becomes of the process.
pub data Outcome : Type 0 where
  exited : Outcome
  panicked : String → Outcome

abbrev canceled_text : String
canceled_text = "context canceled"

abbrev error_text : RunError → String
error_text canceled = canceled_text
error_text (failed e) = e

abbrev pub login_config : Config → OauthLogin.Config
login_config cfg = record {
  issuer = cfg.oauth.issuer;
  audience = cfg.oauth.audience;
  scopes = cfg.auth.scopes_supported;
  client_id = cfg.auth.stdio_client_id;
  registration_url = trim_right_char b'/' cfg.oauth.issuer <> "/oauth/register";
}

module _ {F W D H : Type 0} (host : Host F W D H) where
  -- the static bearer text, which does not depend on the time of a call
  abbrev pub bearer_of : App F W D → String
  bearer_of app = (app.mcp 0).static_bearer

  abbrev pub with_bearer : String → Serving F W D → Serving F W D
  with_bearer bearer mcp now = record (mcp now) { static_bearer = bearer }

  -- the deferred call; an error of the store is only logged
  unfoldable pub cleanup : Option RunError × H → Option RunError × H
  cleanup (r, h) = let (_, h') = host.close_audit h in (r, h')

  after_login : App F W D → Result String TokenResult × H → Option RunError × H
  after_login app (err e, h) = (some (failed ("oauth login failed: " <> e)), h)
  after_login app (ok token, h) =
      host.serve_stdio h (with_bearer ("Bearer " <> token.access_token) app.mcp)

  unfoldable pub run_stdio : App F W D → H → Option RunError × H
  unfolding cleanup after_login
  run_stdio app h = cleanup (
      if bearer_of app == ""
      then after_login app (host.login h (login_config app.config))
      else host.serve_stdio h app.mcp)

  -- the cases of the `select`
  after_end : Ended × H → Option RunError × H
  after_end (context_done e, h) = (some e, host.shutdown h)
  after_end (server_closed, h) = (none, h)
  after_end (server_failed e, h) = (some e, h)

  unfoldable pub run : H → Option RunError × H
  unfolding cleanup after_end
  run h = cleanup (after_end (host.ended h))

  outcome_of : Option RunError × H → Outcome × H
  outcome_of (none, h) = (exited, h)
  outcome_of (some canceled, h) = (exited, h)
  outcome_of (some (failed e), h) = (panicked e, h)

  after_new : Bool → H → Result String (App F W D) → Outcome × H
  unfolding outcome_of run_stdio run
  after_new stdio_mode h (err e) = (panicked e, h)
  after_new stdio_mode h (ok app) = outcome_of (if stdio_mode then run_stdio app h else run h)

  after_load : Outside F W D → Bool → H → Result String Config → Outcome × H
  unfolding after_new new
  after_load x stdio_mode h (err e) = (panicked e, h)
  after_load x stdio_mode h (ok cfg) = after_new stdio_mode h (new x cfg)

  -- `main`, after `config.Load`
  unfoldable pub main : Outside F W D → Bool → H → Result String Config → Outcome × H
  unfolding after_load
  main x stdio_mode h loaded = after_load x stdio_mode h loaded
