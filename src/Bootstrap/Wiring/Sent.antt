-- ===== src/Bootstrap/Wiring/Sent.antt =====
-- What the client of the gateway sends for a tool that the scope check lets through.
use lumen_mcp_server.Base.{
  String, Bool, true, some, List, [], ◌∷◌, Result, Bool-cases, ◌==◌, lookup, trim_space, ◌≡◌, ◌≢◌,
  ◌⊎◌, inl, inr, refl, sym, ap, ◌∙◌, eq_iff, All,
}
use lumen_mcp_server.Json.{Fields}
use lumen_mcp_server.Config.{Config}
use lumen_mcp_server.Config.Loaded.{authorize_of}
use lumen_mcp_server.Authorize.{check}
use lumen_mcp_server.Authorize.Spec.{IsAdmin, Holds}
use lumen_mcp_server.Authorize.Laws.{check-allowed_iff}
use lumen_mcp_server.Gateway.Client
use lumen_mcp_server.Gateway.Client.{
  gateway_client, do_request, invoke_tool, invoke_gateway_tool, prepare,
}
use lumen_mcp_server.Gateway.Client.Responses.{prepare-Carries}
use lumen_mcp_server.Gateway.Latency.{TuningOptions}
use lumen_mcp_server.Gateway.Latency.Tune.{analyze_latency, fetch_phase_series, latency_client}
use lumen_mcp_server.Gateway.Latency.Tune.Requests.{
  Exchange, recorded, Requests, metrics, looked, updated, Called, silent, sent, call-Called,
}
use lumen_mcp_server.Gateway.Latency.Tune.Applied.{tune_upstream_timeout-Requests}
use lumen_mcp_server.Bootstrap.{catalog}
use lumen_mcp_server.Bootstrap.Scopes.{scope_map, write-needs_scope}
use lumen_mcp_server.Bootstrap.Wiring.{Outside, service_of}

-- The same surroundings, with a network that keeps what is sent.
abbrev pub watched : {F W D : Type 0} → Outside F W D → Outside F (W × List Exchange) D
watched x = record {
  floats = x.floats;
  json = x.json;
  net = recorded x.net;
  quote = x.quote;
  order = x.order;
  tokens = x.tokens;
  sqlite_driver = x.sqlite_driver;
  postgres_driver = x.postgres_driver;
  database = x.database;
}

-- The scopes of one who may write: `gateway:write`, by that name or an older one, or an
-- administrator's.
abbrev pub IsWriter : List String → Type 0
IsWriter scopes = IsAdmin scopes ⊎ Holds scopes "gateway:write"

-- If there is a request that is not a GET, something holds.
abbrev pub IfWritten : Type 0 → List Exchange → Type 0
IfWritten P log = All (λ e. e.0.method ≢ "GET" → P) log

pub IfWritten-map :
    (P Q : Type 0) (log : List Exchange) → (P → Q) → IfWritten P log → IfWritten Q log
IfWritten-map P Q [] f all = tt
IfWritten-map P Q (e ∷ log) f (h, all) = (λ w. f (h w), IfWritten-map P Q log f all)

module _ {F W D : Type 0} (x : Outside F W D) (cfg : Config)
    (agrees : cfg.auth.tool_scope_map ≡ scope_map catalog) where
  abbrev client : Client.Client
  client = Client.new cfg.gateway.base_url cfg.gateway.admin_api_key

  tuner-IsWriter :
      (scopes : List String)
      → (check (authorize_of cfg) scopes "tune_upstream_timeout").allowed ≡ true
      → IsWriter scopes
  unfolding lookup
  tuner-IsWriter scopes allowed =
      let (_, (required, found, held)) =
        (check-allowed_iff (authorize_of cfg) scopes "tune_upstream_timeout").0 allowed in
      let named : some "gateway:write" ≡ some required =
        sym (ap (lookup "tune_upstream_timeout") agrees) ∙ found in
      let same : "gateway:write" ≡ required = cc named in rw same held

  Requests-IfWritten :
      (P : Type 0) (opts : TuningOptions F) (dry_run : Bool) (r : Result String (Fields F))
      (log : List Exchange)
      → P
      → Requests x.floats x.json client opts dry_run r log
      → IfWritten P log
  Requests-IfWritten P opts dry_run o log p (metrics m o' r u) = (λ w. p, tt)
  Requests-IfWritten P opts dry_run o log p (looked m g i o' r s u) = (λ w. p, (λ w. p, tt))
  Requests-IfWritten P opts dry_run o log p (updated m g q i o' wet r s t u) =
      (λ w. p, (λ w. p, (λ w. p, tt)))

  module _ (scopes : List String) (args : Fields F) where
    Called-IfWritten :
        (tool_name : String) (r : Result String (Fields F)) (log : List Exchange)
        → (check (authorize_of cfg) scopes tool_name).allowed ≡ true
        → Called x.floats x.json client tool_name args [] r log
        → IfWritten (IsWriter scopes) log
    Called-IfWritten tool_name r log allowed (silent e) = tt
    Called-IfWritten tool_name r log allowed (sent r' e prepared answer) =
        let (spec, asked, carried) =
          prepare-Carries x.floats.numbers x.json client tool_name args e.0 prepared in
        (
          λ other.
              write-needs_scope x.floats.numbers (authorize_of cfg) scopes tool_name args spec
                agrees allowed asked (λ m. other (carried.method ∙ m)),
          tt,
        )

    analysis-IfWritten :
        (w : W)
        → IfWritten
            (IsWriter scopes)
            (analyze_latency x.floats x.json
              (recorded x.net)
              x.quote
              x.order
              client
              (w, [])
              args).1.1
    unfolding analyze_latency fetch_phase_series do_request trim_space
    analysis-IfWritten w = (λ other. absurd (other refl), tt)

    -- Where the scope map agrees with the catalogue, the client of the application sends the gateway a
    -- request that is not a GET, for a call of a tool that the scope check allows, whatever its
    -- arguments, only if the scopes hold `gateway:write`, by that name or an older one, or are an
    -- administrator's.
    pub client-IfWritten :
        (tool_name : String) (w : W)
        → (check (authorize_of cfg) scopes tool_name).allowed ≡ true
        → IfWritten
            (IsWriter scopes)
            ((service_of (watched x) cfg).gateway.invoke_tool (w, []) tool_name args).1.1
    unfolding service_of latency_client gateway_client invoke_tool
    client-IfWritten tool_name w allowed = elim (Bool-cases (tool_name == "analyze_latency")) [
      | inl analyze ↦ rw analyze (analysis-IfWritten w)
      | inr other ↦ elim (Bool-cases (tool_name == "tune_upstream_timeout")) [
        | inl tune ↦
            rw (other, tune)
              (Requests-IfWritten _ _ _ _ _
                (tuner-IsWriter scopes (
                  ap (λ t. (check (authorize_of cfg) scopes t).allowed)
                    (sym ((eq_iff tool_name "tune_upstream_timeout").0 tune))
                  ∙ allowed))
                (tune_upstream_timeout-Requests x.floats x.json x.net x.quote x.order client args
                  w))
        | inr plain ↦
            rw (other, plain)
              (Called-IfWritten tool_name _ _ allowed
                (call-Called x.floats x.json client x.net w [] tool_name args))
      ]
    ]
