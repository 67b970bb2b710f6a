-- ===== src/Invoke/Audited.antt =====
-- Every call leaves one event in the audit log.
use lumen_mcp_server.Base.{ℕ, String, ◌≡◌, Result, ok, err, arith}
use lumen_mcp_server.Domain.{Claims}
use lumen_mcp_server.Invoke.{
  Service, State, InvokeError, failed, message, event, append, invoke_tool,
}

-- Who a verified token speaks for; a token that does not verify speaks for nobody.
abbrev pub actor_of : Result String Claims → String
actor_of (ok claims) = claims.subject
actor_of (err e) = ""

abbrev pub client_of : Result String Claims → String
client_of (ok claims) = claims.client
client_of (err e) = ""

abbrev pub verdict_of : {Payload : Type 0} → Result InvokeError Payload → String
verdict_of (ok payload) = "allow"
verdict_of (err (failed reason)) = "error"
verdict_of (err refused) = "deny"

abbrev pub text_of : {Payload : Type 0} → Result InvokeError Payload → String
text_of (ok payload) = ""
text_of (err e) = message e

module _ {V G A Args Payload : Type 0} (s : Service V G A Args Payload) (now : ℕ)
    (tool_name : String) (args : Args) (trace_id bearer : String) (st : State V G A) where
  -- Whatever the call returns, it hands the audit store exactly one event. The event holds the time,
  -- the tool, the trace id, the token's subject and client if the token verifies, whether the call
  -- was allowed, denied or failed, and the text of the error if the call returns one.
  pub invoke_tool-audit :
      (let r = invoke_tool s now tool_name args trace_id bearer st in
        let verified = (s.verifier.verify_bearer st.verifier bearer).0 in
        r.1.audit
        ≡ (s.audit.append st.audit (
            event now
              (actor_of verified)
              (client_of verified)
              tool_name
              (verdict_of r.0)
              trace_id
              (text_of r.0))).1)
  unfolding invoke_tool append
  invoke_tool-audit = ground arith
