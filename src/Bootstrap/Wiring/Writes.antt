-- ===== src/Bootstrap/Wiring/Writes.antt =====
-- Who can write to the gateway: the whole application, from a tool call over HTTP or MCP to the
-- requests that the gateway gets.
use lumen_mcp_server.Base.{
  ℕ, String, Option, none, some, List, [], Result, ok, err, Result-cases, Bool-cases, ◌==◌, ◌≡◌,
  ◌≢◌, inl, inr, eq_iff, ok,
}
use lumen_mcp_server.Domain.{Claims, Definition}
use lumen_mcp_server.Json.{Fields}
use lumen_mcp_server.Config.{Config}
use lumen_mcp_server.Invoke
use lumen_mcp_server.Invoke.{State}
use lumen_mcp_server.Invoke.Guarded.{invoke_tool-Entitled}
use lumen_mcp_server.Http
use lumen_mcp_server.Http.Routes.{Answer, serve, serve-gateway, serve-invoke}
use lumen_mcp_server.Http.{call_body, handle_invoke}
use lumen_mcp_server.Mcp
use lumen_mcp_server.Mcp.{extract_bearer, with_arguments, make_handler, arguments_of}
use lumen_mcp_server.Audit.Backend.{Backend, new_audit_store}
use lumen_mcp_server.Verifier.Token.{Running}
use lumen_mcp_server.Gateway.Latency.Tune.Requests.{Exchange}
use lumen_mcp_server.Bootstrap.{catalog}
use lumen_mcp_server.Bootstrap.Scopes.{scope_map}
use lumen_mcp_server.Bootstrap.Wiring.{Outside, App, service_of, handler_of, mcp_of, assembled, new}
use lumen_mcp_server.Bootstrap.Wiring.Sent.{
  watched, IsWriter, IfWritten, IfWritten-map, client-IfWritten,
}

module _ {F W D : Type 0} (x : Outside F W D) (cfg : Config)
    (agrees : cfg.auth.tool_scope_map ≡ scope_map catalog) where
  -- The bearer text's token verifies, and its scopes let it write.
  pub record MayWrite (st : State Running (W × List Exchange) (Backend D)) (bearer : String)
      : Type 0 where
    pub claims : Claims
    pub verified :
        ((service_of (watched x) cfg).verifier.verify_bearer st.verifier bearer).0 ≡ ok claims
    pub writes : IsWriter claims.scopes

  module _ (now : ℕ) (verifier : Running) (w : W) (audit : Backend D) where
    -- the state before a call, with nothing sent
    abbrev pub before : State Running (W × List Exchange) (Backend D)
    before = record { verifier = verifier; gateway = (w, []); audit = audit }

    -- What the gateway gets in a call, if it is more than reads, is sent for one who may write.
    abbrev pub Guarded : String → State Running (W × List Exchange) (Backend D) → Type 0
    Guarded bearer st = IfWritten (MayWrite before bearer) st.gateway.1

    invoke_tool-Guarded :
        (tool_name trace_id bearer : String) (args : Fields F)
        → Guarded bearer
            (Invoke.invoke_tool
              (service_of (watched x) cfg)
              now
              tool_name
              args
              trace_id
              bearer
              before).1
    unfolding service_of
    invoke_tool-Guarded tool_name trace_id bearer args =
        elim (invoke_tool-Entitled (service_of (watched x) cfg) now tool_name args trace_id bearer
          before) [
            | inl (entitled, called, _) ↦ rw called (
                IfWritten-map _ _ _
                  (λ p. record {
                    claims = entitled.claims;
                    verified = entitled.verified;
                    writes = p;
                  })
                  (client-IfWritten x cfg agrees entitled.claims.scopes args tool_name w
                    entitled.allowed))
            | inr (_, same, _) ↦ rw same tt
          ]

    call_body-Guarded :
        (r : Http.Request (Fields F)) (b : Option (String × Fields F))
        → Guarded r.authorization (call_body (handler_of (watched x) cfg) now r before b).1
    unfolding call_body
    call_body-Guarded r none = tt
    call_body-Guarded r (some (tool_name, args)) =
        invoke_tool-Guarded tool_name r.trace_id r.authorization args

    handle_invoke-Guarded :
        (r : Http.Request (Fields F))
        → Guarded r.authorization (handle_invoke (handler_of (watched x) cfg) now r before).1
    unfolding handle_invoke
    handle_invoke-Guarded r = elim (Bool-cases (r.method == "POST")) [
      | inl post ↦ rw post (call_body-Guarded r r.body)
      | inr other ↦ rw other tt
    ]

    serve-Guarded :
        (mcp_handler : Option (
          Http.Request (Fields F)
          → State Running (W × List Exchange) (Backend D)
          → Answer (handler_of (watched x) cfg)))
        (c : List Definition) (path : String) (r : Http.Request (Fields F))
        → path ≢ "/mcp"
        → Guarded r.authorization
            (serve (handler_of (watched x) cfg) mcp_handler now c path r before).1
    serve-Guarded mcp_handler c path r plain = elim (Bool-cases (path == "/admin/tools/invoke")) [
      | inl calls ↦
          rw
            (
              (eq_iff path "/admin/tools/invoke").0 calls,
              serve-invoke (handler_of (watched x) cfg) mcp_handler now c r before,
            )
            (handle_invoke-Guarded r)
      | inr quiet ↦
          rw
            (serve-gateway (handler_of (watched x) cfg) mcp_handler now c path r before plain
              (λ e. cc (quiet, (eq_iff path "/admin/tools/invoke").1 e)))
            tt
    ]

    module _ {Raw : Type 0} (codec : Mcp.JsonCodec Raw (Fields F) (Fields F)) (tool_name : String)
        (r : Mcp.CallToolRequest Raw) where
      abbrev server :
          Mcp.Server (State Running (W × List Exchange) (Backend D)) (Fields F) (Fields F)
      server = mcp_of (watched x) cfg now

      with_arguments-Guarded :
          (o : Result String (Fields F))
          → Guarded
              (extract_bearer codec server r)
              (with_arguments codec server tool_name r before o).1
      unfolding with_arguments
      with_arguments-Guarded (err e) = tt
      with_arguments-Guarded (ok args) = elim (Bool-cases (extract_bearer codec server r == "")) [
        | inl blank ↦ rw blank tt
        | inr full ↦ rw full (invoke_tool-Guarded tool_name "" (extract_bearer codec server r) args)
      ]

      make_handler-Guarded :
          Guarded (extract_bearer codec server r) (make_handler codec server tool_name r before).1
      unfolding make_handler
      make_handler-Guarded = with_arguments-Guarded (arguments_of codec r.arguments)

    -- What the application does with one request to any path but that of MCP, and with one tool call
    -- over MCP.
    pub record GuardsWrites (app : App F (W × List Exchange) D) : Type 1 where
      pub http :
          (mcp_handler : Option (
            Http.Request (Fields F)
            → State Running (W × List Exchange) (Backend D)
            → Answer app.handler))
          (c : List Definition) (path : String) (r : Http.Request (Fields F))
          → path ≢ "/mcp"
          → Guarded r.authorization (serve app.handler mcp_handler now c path r before).1
      pub mcp :
          {Raw : Type 0} (codec : Mcp.JsonCodec Raw (Fields F) (Fields F)) (tool_name : String)
          (r : Mcp.CallToolRequest Raw)
          → Guarded
              (extract_bearer codec (app.mcp now) r)
              (make_handler codec (app.mcp now) tool_name r before).1

    -- In the application that `New` builds from a configuration whose scope map agrees with the
    -- catalogue, a request to any path but that of MCP, or a tool call over MCP, sends the gateway a
    -- request that is not a GET only if its bearer text verifies as a token that holds
    -- `gateway:write`, by that name or an older one, or is an administrator's.
    pub new-GuardsWrites :
        (app : App F (W × List Exchange) D) → new (watched x) cfg ≡ ok app → GuardsWrites app
    unfolding new
    new-GuardsWrites app built =
        elim (Result-cases (
          new_audit_store x.sqlite_driver x.postgres_driver cfg.audit.backend cfg.audit.sqlite_path
            cfg.audit.postgres_url)) [
              | inr (e, bad) ↦ cc (rw (bad, new) at built)
              | inl (audit', good) ↦
                  let same : assembled (watched x) cfg audit' ≡ app =
                    cc (rw (good, new) at built) in
                  rw (← same) (record {
                    http = serve-Guarded;
                    mcp = λ codec tool_name r. make_handler-Guarded codec tool_name r;
                  })
            ]
