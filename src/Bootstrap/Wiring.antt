-- ===== src/Bootstrap/Wiring.antt =====
-- internal/bootstrap/app.go: `New`, which builds the application's parts and joins them. What the
-- parts need from outside is a parameter. The logger, the metrics and the timeouts of the HTTP server
-- are left out.
pub mod Reads
pub mod Sent
pub mod Stored
pub mod Writes
pub mod Fixture
mod Tests
use lumen_mcp_server.Base.{
  ℕ, zero, suc, ◌+◌, ◌-◌, ◌≤◌, ◌<◌, String, Bool, true, false, not, ◌&&◌, ◌||◌, Option, none, some,
  List, [], ◌∷◌, ◌++◌, map, length, ℤ, pos, negsuc, lt_int, not_pos, to_nat, Result, ok, err,
  map_err, Result-cases, Option-cases, Bool-cases, ltb, leb, eqb, if◌then◌else◌, ◌==◌, ◌<>◌, lookup,
  assign, itoa, trim_space, trim_slashes, trim_prefix, has_prefix, split, fields, ◌≡◌, ◌≢◌, ◌↔◌,
  ◌⊎◌, inl, inr, refl, sym, ap, ◌∙◌, arith, eq_iff, All, Any, any, trim_right_char, ok,
}
use lumen_mcp_server.Domain.{Event, Definition}
use lumen_mcp_server.Ports.{ToolCatalog, AuditStore}
use lumen_mcp_server.Json.{Fields}
use lumen_mcp_server.Config.{Config}
use lumen_mcp_server.Config.Loaded.{authorize_of}
use lumen_mcp_server.Invoke
use lumen_mcp_server.Invoke.{State}
use lumen_mcp_server.Http
use lumen_mcp_server.Mcp
use lumen_mcp_server.Mcp.{service_invoker}
use lumen_mcp_server.Audit.Memory.{MemoryStore, memory_store}
use lumen_mcp_server.Audit.Sql.{Database, sql_store}
use lumen_mcp_server.Audit.Backend.{Driver, Backend, memory, sqlite, postgres, new_audit_store}
use lumen_mcp_server.Verifier.{Codec}
use lumen_mcp_server.Verifier.Token.{Running, token_verifier}
use lumen_mcp_server.Gateway.Client
use lumen_mcp_server.Gateway.Client.{Transport}
use lumen_mcp_server.Gateway.Latency.{Floats}
use lumen_mcp_server.Gateway.Latency.Entries.{Group}
use lumen_mcp_server.Gateway.Latency.Tune.{latency_client}
use lumen_mcp_server.Bootstrap.{catalog}

-- What the application uses from outside: floats, JSON, the network, `%q`, the order of iteration,
-- the reading of tokens, and the databases.
pub record Outside (F W D : Type 0) : Type 0 where
  pub floats : Floats F
  pub json : Client.JsonCodec F
  pub net : Transport W
  pub quote : String → String
  pub order : List (Group F) → List (Group F)
  pub tokens : Codec F
  pub sqlite_driver : Driver D
  pub postgres_driver : Driver D
  pub database : Database D

-- `App`, with the store of events that it starts with; the MCP server at the time of a call.
pub record App (F W D : Type 0) : Type 0 where
  pub config : Config
  pub mcp : ℕ → Mcp.Server (State Running W (Backend D)) (Fields F) (Fields F)
  pub handler : Http.Handler Running W (Backend D) (List Definition) (Fields F) (Fields F)
  pub tools : List Definition
  pub audit : Backend D

-- `staticCatalog`, whose state is its tools
abbrev pub static_catalog : ToolCatalog (List Definition)
static_catalog = record { list = λ s. ok s }

unfoldable pub resource_of : Config → String
resource_of cfg =
    if cfg.oauth.audience == ""
    then trim_right_char b'/' cfg.server.public_base_url <> cfg.server.mcp_endpoint
    else cfg.oauth.audience

module _ {F W D : Type 0} (x : Outside F W D) where
  -- the store of a backend, as the interface that its users see
  unfoldable pub append_to : Backend D → Event → Option String × Backend D
  append_to (memory m) e = let (r, m') = memory_store.append m e in (r, memory m')
  append_to (sqlite d) e = let (r, d') = (sql_store x.database).append d e in (r, sqlite d')
  append_to (postgres d) e = let (r, d') = (sql_store x.database).append d e in (r, postgres d')

  unfoldable pub list_from : Backend D → ℤ → Option (Result String (List Event)) × Backend D
  list_from (memory m) limit = let (r, m') = memory_store.list m limit in (r, memory m')
  list_from (sqlite d) limit = let (r, d') = (sql_store x.database).list d limit in (r, sqlite d')
  list_from (postgres d) limit =
      let (r, d') = (sql_store x.database).list d limit in (r, postgres d')

  unfoldable pub backend_store : AuditStore (Backend D)
  backend_store = record { append = append_to; list = list_from }

  unfoldable pub service_of : Config → Invoke.Service Running W (Backend D) (Fields F) (Fields F)
  service_of cfg = record {
    verifier = token_verifier x.tokens (record {
      issuer = cfg.oauth.issuer;
      audience = cfg.oauth.audience;
      refresh_interval = pos 0;
    });
    authorize = authorize_of cfg;
    gateway =
        latency_client x.floats x.json x.net x.quote x.order
          (Client.new cfg.gateway.base_url cfg.gateway.admin_api_key);
    audit = backend_store;
  }

  abbrev pub handler_of :
      Config → Http.Handler Running W (Backend D) (List Definition) (Fields F) (Fields F)
  handler_of cfg = record {
    invoker = service_of cfg;
    catalog = static_catalog;
    audit = backend_store;
    resource = resource_of cfg;
    authorization_server = cfg.oauth.issuer;
    resource_metadata_url = cfg.oauth.protected_resource_metadata_url;
    scopes_supported = cfg.auth.scopes_supported;
    default_challenge_scope = cfg.auth.default_challenge_scope;
    verifier = some (service_of cfg).verifier;
    authorize = (service_of cfg).authorize;
  }

  abbrev pub mcp_of : Config → ℕ → Mcp.Server (State Running W (Backend D)) (Fields F) (Fields F)
  mcp_of cfg now = record {
    invoker = service_invoker (service_of cfg) now;
    static_bearer = cfg.auth.static_bearer;
    resource_metadata_url = cfg.oauth.protected_resource_metadata_url;
  }

  abbrev pub assembled : Config → Backend D → App F W D
  assembled cfg audit = record {
    config = cfg;
    mcp = mcp_of cfg;
    handler = handler_of cfg;
    tools = catalog;
    audit = audit;
  }

  -- The application, or the error that `New` panics with.
  unfoldable pub new : Config → Result String (App F W D)
  new cfg =
      elim (new_audit_store x.sqlite_driver x.postgres_driver cfg.audit.backend
        cfg.audit.sqlite_path cfg.audit.postgres_url) [
          | err e ↦ err e
          | ok audit ↦ ok (assembled cfg audit)
        ]
