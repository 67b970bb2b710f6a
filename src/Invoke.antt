-- ===== src/Invoke.antt =====
-- internal/application/invoke/service.go: a tool call is verified, authorised, passed on to the
-- gateway, and recorded in the audit log.
pub mod Audited
pub mod Guarded
pub mod Sequence
mod Tests
use lumen_mcp_server.Base.{ℕ, String, Result, ok, err, if◌then◌else◌}
use lumen_mcp_server.Domain.{Event, Decision, Claims}
use lumen_mcp_server.Ports.{TokenVerifier, GatewayAdminClient, AuditStore}
use lumen_mcp_server.Authorize
use lumen_mcp_server.Authorize.{check}

-- ErrUnauthorized, ErrForbidden, and any error of the gateway client
pub data InvokeError : Type 0 where
  unauthorized forbidden failed : String → InvokeError

-- What `Error()` returns.
abbrev pub message : InvokeError → String
message (unauthorized reason) = reason
message (forbidden reason) = reason
message (failed reason) = reason

-- The adapters' states.
pub record State (V G A : Type 0) : Type 0 where
  pub verifier : V
  pub gateway : G
  pub audit : A

-- The adapters, and the scope rules.
pub record Service (V G A Args Payload : Type 0) : Type 0 where
  pub verifier : TokenVerifier V
  pub authorize : Authorize.Service
  pub gateway : GatewayAdminClient G Args Payload
  pub audit : AuditStore A

-- An audit event's fixed part: no resource is named by any call.
abbrev pub event : ℕ → String → String → String → String → String → String → Event
event now actor client tool_name result trace_id text = record {
  at = now;
  actor = actor;
  client_id = client;
  tool = tool_name;
  resource_kind = "";
  resource_id = "";
  result = result;
  trace_id = trace_id;
  message = text;
}

module _ {V G A Args Payload : Type 0} (s : Service V G A Args Payload) where
  -- `_ = s.Audit.Append(…)`: the error is dropped
  unfoldable pub append : Event → State V G A → State V G A
  append e st = let (_, audit) = s.audit.append st.audit e in record st { audit = audit }

  module _ (now : ℕ) (tool_name : String) (args : Args) (trace_id : String) where
    after_gateway :
        Claims → Result String Payload → State V G A → Result InvokeError Payload × State V G A
    after_gateway claims (err e) st = (
      err (failed e),
      append (event now claims.subject claims.client tool_name "error" trace_id e) st,
    )
    after_gateway claims (ok payload) st = (
      ok payload,
      append (event now claims.subject claims.client tool_name "allow" trace_id "") st,
    )

    call_gateway : Claims → State V G A → Result InvokeError Payload × State V G A
    unfolding after_gateway
    call_gateway claims st =
        let (result, gateway) = s.gateway.invoke_tool st.gateway tool_name args in
        after_gateway claims result (record st { gateway = gateway })

    after_check : Claims → Decision → State V G A → Result InvokeError Payload × State V G A
    after_check claims decision st = if decision.allowed then call_gateway claims st else (
      err (forbidden decision.reason),
      append (event now claims.subject claims.client tool_name "deny" trace_id decision.reason) st,
    )

    after_verify : Result String Claims → State V G A → Result InvokeError Payload × State V G A
    unfolding after_check call_gateway
    after_verify (err e) st =
        (err (unauthorized e), append (event now "" "" tool_name "deny" trace_id e) st)
    after_verify (ok claims) st = after_check claims (check s.authorize claims.scopes tool_name) st

    -- `now` is what `time.Now().UTC()` returns; one call reads it once
    unfoldable pub invoke_tool : String → State V G A → Result InvokeError Payload × State V G A
    unfolding after_verify
    invoke_tool bearer st =
        let (result, verifier) = s.verifier.verify_bearer st.verifier bearer in
        after_verify result (record st { verifier = verifier })
