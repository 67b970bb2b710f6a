-- ===== src/Config.antt =====
-- internal/config/config.go and load.go: the configuration, its defaults and its validation. Reading
-- the file and decoding YAML are parameters, and so is the quoting of `%q`. A duration is a number of
-- nanoseconds; a Go map is its entries in the order in which the loop meets them.
pub mod Laws
pub mod Loaded
mod Tests
use lumen_mcp_server.Base.{
  ◌>>=◌, zero, suc, ok, ◌&&◌, ◌||◌, err, trim_space, not, ◌==◌, ◌<>◌, some, none, Option, Result,
  if◌then◌else◌, trim_slashes, [], Bool, List, pos, String, ℤ, ◌∷◌,
}

pub record ServerConfig : Type 0 where
  pub http_listen : String
  pub public_base_url : String
  pub mcp_endpoint : String
  pub read_timeout : ℤ
  pub write_timeout : ℤ

pub record LoggingConfig : Type 0 where
  pub level : String
  pub format : String

pub record ObservabilityConfig : Type 0 where
  pub metrics_enabled : Bool
  pub metrics_path : String

pub record OauthConfig : Type 0 where
  pub issuer : String
  pub audience : String
  pub jwks_url : String
  pub protected_resource_metadata_url : String

pub record GatewayConfig : Type 0 where
  pub base_url : String
  pub admin_api_key : String

pub record AuthConfig : Type 0 where
  pub default_challenge_scope : String
  pub scopes_supported : List String
  pub required_scopes : List String
  pub tool_scope_map : List (String × String)
  pub static_bearer : String
  pub stdio_client_id : String

pub record AuditConfig : Type 0 where
  pub backend : String
  pub sqlite_path : String
  pub postgres_url : String

pub record Config : Type 0 where
  pub server : ServerConfig
  pub logging : LoggingConfig
  pub observability : ObservabilityConfig
  pub oauth : OauthConfig
  pub gateway : GatewayConfig
  pub auth : AuthConfig
  pub audit : AuditConfig

-- `if x == "" { x = d }`, and the same for a duration and a list
unfoldable pub text_or : String → String → String
text_or d x = if x == "" then d else x

abbrev pub duration_or : ℤ → ℤ → ℤ
duration_or d (pos zero) = d
duration_or d x = x

abbrev pub list_or : List String → List String → List String
list_or d [] = d
list_or d (x ∷ xs) = x ∷ xs

abbrev pub metadata_path : String
metadata_path = "/.well-known/oauth-protected-resource"

abbrev pub server_defaults : ServerConfig → ServerConfig
server_defaults s = record {
  http_listen = text_or ":9280" s.http_listen;
  public_base_url = text_or "http://127.0.0.1:9280" s.public_base_url;
  mcp_endpoint = text_or "/mcp" s.mcp_endpoint;
  read_timeout = duration_or (pos 10000000000) s.read_timeout;
  write_timeout = duration_or (pos 10000000000) s.write_timeout;
}

abbrev pub auth_defaults : AuthConfig → AuthConfig
auth_defaults a = record a {
  default_challenge_scope = text_or "mcp:tools" a.default_challenge_scope;
  scopes_supported =
      list_or ("mcp:tools" ∷ "read" ∷ "gateway:write" ∷ "oauth:write" ∷ []) a.scopes_supported;
  required_scopes = list_or ("mcp:tools" ∷ []) a.required_scopes;
}

abbrev pub oauth_defaults : String → OauthConfig → OauthConfig
oauth_defaults public_base_url o = record o {
  protected_resource_metadata_url =
      text_or (trim_slashes public_base_url <> metadata_path) o.protected_resource_metadata_url;
}

unfoldable pub apply_defaults : Config → Config
apply_defaults c = record c {
  server = server_defaults c.server;
  logging = record {
    level = text_or "info" c.logging.level;
    format = text_or "json" c.logging.format;
  };
  observability = record c.observability {
    metrics_path = text_or "/metrics" c.observability.metrics_path;
  };
  oauth = oauth_defaults (server_defaults c.server).public_base_url c.oauth;
  auth = auth_defaults c.auth;
  audit = record c.audit {
    backend = text_or "stdout" c.audit.backend;
    sqlite_path = text_or "./data/mcp-audit.db" c.audit.sqlite_path;
  };
}

-- `if bad { return errors.New(e) }`, and what follows it
unfoldable pub refuse_if : Bool → String → Option String → Option String
refuse_if bad e rest = if bad then some e else rest

module _ (quote : String → String) where
  check_entries : List (String × String) → Option String
  unfolding refuse_if
  check_entries [] = none
  check_entries ((tool, scope) ∷ entries) =
      let rest = check_entries entries in
      refuse_if (trim_space tool == "" || trim_space scope == "")
        ("invalid tool_scope_map entry: " <> (quote tool <> ("=" <> quote scope))) rest

  check_scope_map : List (String × String) → Option String
  unfolding check_entries
  check_scope_map [] = some "auth.tool_scope_map cannot be empty"
  check_scope_map (e ∷ entries) = check_entries (e ∷ entries)

  check_scopes : List String → Option String
  unfolding refuse_if
  check_scopes [] = none
  check_scopes (scope ∷ scopes) =
      let rest = check_scopes scopes in
      refuse_if (trim_space scope == "") "auth.required_scopes cannot contain empty scope" rest

  check_audit : AuditConfig → Option String
  unfolding refuse_if
  check_audit a =
      refuse_if (not (a.backend == "stdout" || (a.backend == "sqlite" || a.backend == "postgres")))
        ("unsupported audit.backend: " <> quote a.backend)
        (refuse_if (a.backend == "sqlite" && trim_space a.sqlite_path == "")
          "audit.sqlite_path cannot be empty when audit.backend=sqlite"
          (refuse_if (a.backend == "postgres" && trim_space a.postgres_url == "")
            "audit.postgres_url cannot be empty when audit.backend=postgres" none))

  -- the first error of two checks
  abbrev first_error : Option String → Option String → Option String
  first_error (some e) rest = some e
  first_error none rest = rest

  pub validate : Config → Option String
  unfolding refuse_if check_scope_map check_scopes check_audit
  validate c = refuse_if (c.oauth.issuer == "") "oauth.issuer cannot be empty" (
      refuse_if (c.oauth.audience == "") "oauth.audience cannot be empty" (
        refuse_if (c.oauth.jwks_url == "") "oauth.jwks_url cannot be empty" (
          refuse_if (c.gateway.base_url == "") "gateway.base_url cannot be empty" (
            refuse_if (c.gateway.admin_api_key == "") "gateway.admin_api_key cannot be empty" (
              first_error (check_scope_map c.auth.tool_scope_map)
                (first_error (check_scopes c.auth.required_scopes) (check_audit c.audit)))))))

  accept : Config → Option String → Result String Config
  accept cfg (some e) = err e
  accept cfg none = ok cfg

  -- `path` stands in the argument that reads the file: its bytes, decoded, or an error.
  unfoldable pub load : Result String Config → Result String Config
  unfolding validate accept
  load file = do cfg ← file; accept (apply_defaults cfg) (validate (apply_defaults cfg))
