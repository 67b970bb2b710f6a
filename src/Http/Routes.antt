-- ===== src/Http/Routes.antt =====
-- internal/interfaces/http/routes/router.go: which handler serves which path. The mux, the counters
-- under /debug/vars and the MCP handler belong to libraries: what they answer themselves is `none`, as
-- is the answer of a handler that panics, and the MCP handler is an argument. The path is the one that the mux matches, after it is cleaned. The
-- chain of middleware is modelled with the middleware.
use lumen_mcp_server.Base.{
  ℕ, String, Option, none, some, Result, ok, err, if◌then◌else◌, ◌==◌, ◌≡◌, ◌≢◌, refl, arith,
  eq_iff, ok,
}
use lumen_mcp_server.Invoke.{State}
use lumen_mcp_server.Http.{
  Request, Response, Handler, healthz, protected_resource_metadata, list_tools, list_audit,
  handle_invoke, after_audit_check,
}

module _ {V G A C Args Payload : Type 0} (h : Handler V G A C Args Payload) where
  abbrev pub Answer : Type 0
  Answer = Option (Response Payload) × State V G A

  -- a handler that answers without looking at the state
  abbrev fixed : Response Payload → State V G A → Answer
  fixed response st = (some response, st)

  answered : Response Payload × State V G A → Answer
  answered (response, st) = (some response, st)

  tools_answer : C → Request Args → State V G A → Answer
  tools_answer c r st =
      let (response, verifier) = list_tools h c r st.verifier in
      (some response, record st { verifier = verifier })

  mcp_answer : Option (Request Args → State V G A → Answer) → Request Args → State V G A → Answer
  mcp_answer none r st = (none, st)
  mcp_answer (some mcp_handler) r st = mcp_handler r st

  unfoldable pub serve :
      Option (Request Args → State V G A → Answer)
      → ℕ
      → C
      → String
      → Request Args
      → State V G A
      → Answer
  unfolding answered tools_answer mcp_answer
  serve mcp_handler now c path r st =
      if path == "/healthz"
      then fixed (healthz h) st
      else if path == "/.well-known/oauth-protected-resource"
      then fixed (protected_resource_metadata h) st
      else if path == "/.well-known/oauth-protected-resource/mcp"
      then fixed (protected_resource_metadata h) st
      else if path == "/admin/tools"
      then tools_answer c r st
      else if path == "/admin/audit"
      then list_audit h r st
      else if path == "/admin/tools/invoke"
      then answered (handle_invoke h now r st)
      else if path == "/mcp"
      then mcp_answer mcp_handler r st
      else (none, st)

  answered-state : (x : Response Payload × State V G A) → (answered x).1 ≡ x.1
  unfolding answered
  answered-state (response, st) = refl

  after_audit_check-gateway :
      (r : Request Args) (st : State V G A) (checked : Result (Response Payload) _)
      → (after_audit_check h r st checked).1.gateway ≡ st.gateway
  unfolding after_audit_check
  after_audit_check-gateway r st (err response) = refl
  after_audit_check-gateway r st (ok claims) = refl

  list_audit-gateway :
      (r : Request Args) (st : State V G A) → (list_audit h r st).1.gateway ≡ st.gateway
  unfolding list_audit
  list_audit-gateway r st = after_audit_check-gateway r _ _

  -- A path other than that of MCP and that of tool calls leaves the gateway alone.
  pub serve-gateway :
      (mcp_handler : Option (Request Args → State V G A → Answer)) (now : ℕ) (c : C) (path : String)
      (r : Request Args) (st : State V G A)
      → path ≢ "/mcp"
      → path ≢ "/admin/tools/invoke"
      → (serve mcp_handler now c path r st).1.gateway ≡ st.gateway
  unfolding serve answered tools_answer
  serve-gateway mcp_handler now c path r st plain quiet =
      ground (arith, list_audit-gateway r st, eq_iff path "/mcp", eq_iff path "/admin/tools/invoke")

  -- The path of tool calls is served by their handler.
  pub serve-invoke :
      (mcp_handler : Option (Request Args → State V G A → Answer)) (now : ℕ) (c : C)
      (r : Request Args) (st : State V G A)
      → (serve mcp_handler now c "/admin/tools/invoke" r st).1 ≡ (handle_invoke h now r st).1
  unfolding serve answered
  serve-invoke mcp_handler now c r st = refl
