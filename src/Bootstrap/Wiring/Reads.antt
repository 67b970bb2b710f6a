-- ===== src/Bootstrap/Wiring/Reads.antt =====
-- What the client of the gateway sends for a tool that the catalogue lists as one that reads.
use lumen_mcp_server.Base.{
  String, true, false, Option, none, some, List, [], ◌∷◌, Result, Bool-cases, ◌==◌, trim_space, ◌≡◌,
  ◌⊎◌, inl, inr, refl, sym, ap, ◌∙◌, eq_iff, Any,
}
use lumen_mcp_server.Domain.{Definition}
use lumen_mcp_server.Json.{Fields}
use lumen_mcp_server.Config.{Config}
use lumen_mcp_server.Gateway.Client
use lumen_mcp_server.Gateway.Client.{gateway_client, do_request, invoke_tool}
use lumen_mcp_server.Gateway.Client.Responses.{Encodes, prepare-Carries}
use lumen_mcp_server.Gateway.Request.{one_of}
use lumen_mcp_server.Gateway.Request.Methods.{reading_tools}
use lumen_mcp_server.Gateway.Latency.Tune.{analyze_latency, fetch_phase_series, latency_client}
use lumen_mcp_server.Gateway.Latency.Tune.Requests.{
  Exchange, recorded, Called, silent, sent, call-Called,
}
use lumen_mcp_server.Bootstrap.{catalog}
use lumen_mcp_server.Bootstrap.Scopes.{catalog-Reads, read_scope-IsGet}
use lumen_mcp_server.Bootstrap.Wiring.{Outside, service_of}
use lumen_mcp_server.Bootstrap.Wiring.Sent.{watched}

-- Nothing was sent, or one GET request with no body.
abbrev pub ReadsOnce : List Exchange → Type 0
ReadsOnce log =
    (log ≡ []) ⊎ ((e : Exchange) × (log ≡ e ∷ []) × (e.0.method ≡ "GET") × (e.0.body ≡ none))

module _ {F W D : Type 0} (x : Outside F W D) (cfg : Config) where
  abbrev client : Client.Client
  client = Client.new cfg.gateway.base_url cfg.gateway.admin_api_key

  no_body :
      (b : Option (Fields F)) (raw : Option String)
      → b ≡ none
      → Encodes x.floats.numbers x.json b raw
      → raw ≡ none
  no_body none raw e h = h
  no_body (some body) raw e h = cc e

  Called-ReadsOnce :
      (d : Definition) (args : Fields F) (r : Result String (Fields F)) (log : List Exchange)
      → Any (λ t. d ≡ t) catalog
      → d.scope ≡ "read"
      → Called x.floats x.json client d.name args [] r log
      → ReadsOnce log
  Called-ReadsOnce d args r log member reads (silent e) = inl refl
  Called-ReadsOnce d args r log member reads (sent r' e prepared answer) =
      let (spec, asked, carried) =
        prepare-Carries x.floats.numbers x.json client d.name args e.0 prepared in
      let (get, bare) = read_scope-IsGet x.floats.numbers d args spec member reads asked in
      inr (e, refl, carried.method ∙ get, no_body spec.body e.0.body bare carried.body)

  analysis-ReadsOnce :
      (args : Fields F) (w : W)
      → ReadsOnce
          (analyze_latency x.floats x.json (recorded x.net) x.quote x.order client (w, []) args).1.1
  unfolding analyze_latency fetch_phase_series do_request trim_space
  analysis-ReadsOnce args w = inr (_, refl, refl, refl)

  no_tuner :
      (d : Definition)
      → Any (λ t. d ≡ t) catalog
      → d.scope ≡ "read"
      → (d.name == "tune_upstream_timeout") ≡ false
  no_tuner d member reads = elim (Bool-cases (d.name == "tune_upstream_timeout")) [
    | inr other ↦ other
    | inl tune ↦
        let reading : one_of "tune_upstream_timeout" reading_tools ≡ true =
          ap (λ t. one_of t reading_tools) (sym ((eq_iff d.name "tune_upstream_timeout").0 tune))
          ∙ catalog-Reads d member reads in
        cc reading
  ]

  -- For a call of a tool that the catalogue lists with the scope `read`, whatever its arguments, the
  -- client of the application sends the gateway nothing, or one GET request with no body.
  pub read_tool-ReadsOnce :
      (d : Definition) (args : Fields F) (w : W)
      → Any (λ t. d ≡ t) catalog
      → d.scope ≡ "read"
      → ReadsOnce ((service_of (watched x) cfg).gateway.invoke_tool (w, []) d.name args).1.1
  unfolding service_of latency_client gateway_client invoke_tool
  read_tool-ReadsOnce d args w member reads = elim (Bool-cases (d.name == "analyze_latency")) [
    | inl analyze ↦ rw analyze (analysis-ReadsOnce args w)
    | inr other ↦
        rw (other, no_tuner d member reads)
          (Called-ReadsOnce d args _ _ member reads
            (call-Called x.floats x.json client x.net w [] d.name args))
  ]
