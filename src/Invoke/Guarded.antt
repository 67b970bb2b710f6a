-- ===== src/Invoke/Guarded.antt =====
-- The gateway is called only for a verified token that is entitled to the tool.
use lumen_mcp_server.Base.{
  ℕ, String, ◌≡◌, refl, true, false, Result, ok, err, ◌⊎◌, inl, inr, arith, Bool-cases,
  Result-cases, map_err,
}
use lumen_mcp_server.Domain.{Claims}
use lumen_mcp_server.Authorize.{check}
use lumen_mcp_server.Invoke.{
  Service, State, InvokeError, unauthorized, forbidden, failed, append, invoke_tool,
}

module _ {V G A Args Payload : Type 0} (s : Service V G A Args Payload) (now : ℕ)
    (tool_name : String) (args : Args) (trace_id bearer : String) (st : State V G A) where
  -- The token verifies, and its scopes entitle it to the tool.
  pub record Entitled : Type 0 where
    pub claims : Claims
    pub verified : (s.verifier.verify_bearer st.verifier bearer).0 ≡ ok claims
    pub allowed : (check s.authorize claims.scopes tool_name).allowed ≡ true

  -- The call is refused, for want of a token or of a scope.
  abbrev pub Refused : Result InvokeError Payload → Type 0
  Refused (ok payload) = ⊥
  Refused (err (unauthorized reason)) = (s.verifier.verify_bearer st.verifier bearer).0 ≡ err reason
  Refused (err (forbidden reason)) =
      (claims : Claims) × ((s.verifier.verify_bearer st.verifier bearer).0 ≡ ok claims)
      × ((check s.authorize claims.scopes tool_name).allowed ≡ false)
      × (reason ≡ (check s.authorize claims.scopes tool_name).reason)
  Refused (err (failed reason)) = ⊥

  refused_token :
      (e : String)
      → (s.verifier.verify_bearer st.verifier bearer).0 ≡ err e
      → (invoke_tool s now tool_name args trace_id bearer st).0 ≡ err (unauthorized e)
  unfolding invoke_tool
  refused_token e bad = ground arith

  refused_scope :
      (claims : Claims)
      → (s.verifier.verify_bearer st.verifier bearer).0 ≡ ok claims
      → (check s.authorize claims.scopes tool_name).allowed ≡ false
      → (invoke_tool s now tool_name args trace_id bearer st).0
        ≡ err (forbidden (check s.authorize claims.scopes tool_name).reason)
  unfolding invoke_tool
  refused_scope claims good denied = ground arith

  gateway-invoke_tool :
      (Entitled
        × ((invoke_tool s now tool_name args trace_id bearer st).1.gateway
            ≡ (s.gateway.invoke_tool st.gateway tool_name args).1)
        × ((invoke_tool s now tool_name args trace_id bearer st).0
            ≡ map_err failed (s.gateway.invoke_tool st.gateway tool_name args).0))
      ⊎ (((invoke_tool s now tool_name args trace_id bearer st).1.gateway ≡ st.gateway)
          × (((e : String) × ((s.verifier.verify_bearer st.verifier bearer).0 ≡ err e))
              ⊎ ((claims : Claims) × ((s.verifier.verify_bearer st.verifier bearer).0 ≡ ok claims)
                  × ((check s.authorize claims.scopes tool_name).allowed ≡ false))))
  unfolding invoke_tool append
  gateway-invoke_tool = elim (Result-cases (s.verifier.verify_bearer st.verifier bearer).0) [
    | inr (e, bad) ↦ inr (ground arith, inl (e, bad))
    | inl (claims, good) ↦ elim (Bool-cases (check s.authorize claims.scopes tool_name).allowed) [
      | inl granted ↦ inl (
        record { claims = claims; verified = good; allowed = granted },
        ground arith,
        ground arith,
      )
      | inr denied ↦ inr (ground arith, inr (claims, good, denied))
    ]
  ]

  -- If the token entitles to the tool, the gateway is called once with the tool and its arguments,
  -- and the call returns the gateway's payload or error. If not, the gateway is left alone and the
  -- call is refused, with the verifier's error or the reason of the scope check.
  pub invoke_tool-Entitled :
      (Entitled
        × ((invoke_tool s now tool_name args trace_id bearer st).1.gateway
            ≡ (s.gateway.invoke_tool st.gateway tool_name args).1)
        × ((invoke_tool s now tool_name args trace_id bearer st).0
            ≡ map_err failed (s.gateway.invoke_tool st.gateway tool_name args).0))
      ⊎ ((¬ Entitled)
          × ((invoke_tool s now tool_name args trace_id bearer st).1.gateway ≡ st.gateway)
          × Refused (invoke_tool s now tool_name args trace_id bearer st).0)
  invoke_tool-Entitled = elim gateway-invoke_tool [
    | inl served ↦ inl served
    | inr (same, inl (e, bad)) ↦ inr (λ c. cc (bad, c.verified), same, rw (refused_token e bad) bad)
    | inr (same, inr (claims, good, denied)) ↦ inr (
      λ c. cc (good, c.verified, c.allowed),
      same,
      rw (refused_scope claims good denied) (claims, good, denied, refl),
    )
  ]
