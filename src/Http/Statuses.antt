-- ===== src/Http/Statuses.antt =====
-- The status that a tool call over HTTP is answered with.
use lumen_mcp_server.Base.{arith, Result, none, some, ok, err, inl, inr, refl}
use lumen_mcp_server.Invoke.{State, InvokeError, unauthorized, forbidden, failed, invoke_tool}
use lumen_mcp_server.Http.{
  Option, ℕ, Request, Response, Handler, call_body, handle_invoke, respond, result,
}
use lumen_mcp_server.Base.{
  refl, inr, err, eq_iff, ok, inl, ◌↔◌, ◌==◌, some, none, Bool-cases, String, ◌≡◌, ◌≢◌,
}

module _ {V G A C Args Payload : Type 0} (h : Handler V G A C Args Payload) (now : ℕ)
    (r : Request Args) (st : State V G A) where
  -- What a call over HTTP comes to: a request that is no POST or has no readable body leaves everything
  -- as it was; otherwise the tool is invoked once, and the status tells its outcome.
  pub data Answered : Response Payload → State V G A → Type 0 where
    no_post :
        (response : Response Payload)
        → r.method ≢ "POST"
        → response.status ≡ 405
        → Answered response st
    no_body :
        (response : Response Payload)
        → r.method ≡ "POST"
        → r.body ≡ none
        → response.status ≡ 400
        → Answered response st
    called :
        (tool_name : String) (args : Args) (response : Response Payload)
        → r.method ≡ "POST"
        → r.body ≡ some (tool_name, args)
        → ((response.status ≡ 200) ↔ (
            (p : Payload) × ((invoke_tool h.invoker now tool_name args r.trace_id r.authorization
                st).0
              ≡ ok p)
            × (response.body ≡ result p)))
        → ((response.status ≡ 401) ↔ (
            (e : String) × ((invoke_tool h.invoker now tool_name args r.trace_id r.authorization
                st).0
              ≡ err (unauthorized e))))
        → ((response.status ≡ 403) ↔ (
            (e : String) × ((invoke_tool h.invoker now tool_name args r.trace_id r.authorization
                st).0
              ≡ err (forbidden e))))
        → Answered response
            (invoke_tool h.invoker now tool_name args r.trace_id r.authorization st).1

  respond-ok :
      (tool_name : String) (o : Result InvokeError Payload)
      → ((respond h tool_name o).status ≡ 200)
        ↔ ((p : Payload) × (o ≡ ok p) × ((respond h tool_name o).body ≡ result p))
  respond-ok tool_name (ok p) = (λ e. (p, refl, refl), λ (q, e, b). refl)
  respond-ok tool_name (err (unauthorized x)) = (λ e. absurd (omega arith), λ (q, e, b). cc e)
  respond-ok tool_name (err (forbidden x)) = (λ e. absurd (omega arith), λ (q, e, b). cc e)
  respond-ok tool_name (err (failed x)) = (λ e. absurd (omega arith), λ (q, e, b). cc e)

  respond-unauthorized :
      (tool_name : String) (o : Result InvokeError Payload)
      → ((respond h tool_name o).status ≡ 401) ↔ ((x : String) × (o ≡ err (unauthorized x)))
  respond-unauthorized tool_name (ok p) = (λ e. absurd (omega arith), λ (y, e). cc e)
  respond-unauthorized tool_name (err (unauthorized x)) = (λ e. (x, refl), λ (y, e). refl)
  respond-unauthorized tool_name (err (forbidden x)) = (λ e. absurd (omega arith), λ (y, e). cc e)
  respond-unauthorized tool_name (err (failed x)) = (λ e. absurd (omega arith), λ (y, e). cc e)

  respond-forbidden :
      (tool_name : String) (o : Result InvokeError Payload)
      → ((respond h tool_name o).status ≡ 403) ↔ ((x : String) × (o ≡ err (forbidden x)))
  respond-forbidden tool_name (ok p) = (λ e. absurd (omega arith), λ (y, e). cc e)
  respond-forbidden tool_name (err (unauthorized x)) = (λ e. absurd (omega arith), λ (y, e). cc e)
  respond-forbidden tool_name (err (forbidden x)) = (λ e. (x, refl), λ (y, e). refl)
  respond-forbidden tool_name (err (failed x)) = (λ e. absurd (omega arith), λ (y, e). cc e)

  call_body-Answered :
      (b : Option (String × Args))
      → r.method ≡ "POST"
      → r.body ≡ b
      → Answered (call_body h now r st b).0 (call_body h now r st b).1
  unfolding call_body
  call_body-Answered none post e = no_body _ post e refl
  call_body-Answered (some (tool_name, args)) post e =
      let outcome = (invoke_tool h.invoker now tool_name args r.trace_id r.authorization st).0 in
      called tool_name args _ post e (respond-ok tool_name outcome)
        (respond-unauthorized tool_name outcome) (respond-forbidden tool_name outcome)

  -- A request that is no POST is answered with 405, and one without a readable body with 400; neither
  -- changes anything. Any other invokes the tool once, and is answered with 200 and the result exactly
  -- if the call succeeds, 401 if the bearer text is refused, and 403 if the scopes do not suffice.
  pub handle_invoke-Answered : Answered (handle_invoke h now r st).0 (handle_invoke h now r st).1
  unfolding handle_invoke
  handle_invoke-Answered = elim (Bool-cases (r.method == "POST")) [
    | inl post ↦ rw post (call_body-Answered r.body ((eq_iff r.method "POST").0 post) refl)
    | inr other ↦ rw other (no_post _ (λ p. cc (other, (eq_iff r.method "POST").1 p)) refl)
  ]
