-- ===== src/Config/Tests.antt =====
-- Tests: a small configuration, with the defaults filled in.
use lumen_mcp_server.Config.{pos, String, ok, ◌∷◌, Config, apply_defaults, validate, load}
use lumen_mcp_server.Config.Laws.{IsValid, validate-IsValid}
use lumen_mcp_server.Config.Loaded.{authorize_of, load-ok_iff, load-Holds}
use lumen_mcp_server.Authorize.{check}
use lumen_mcp_server.Authorize.Spec.{Holds}
use lumen_mcp_server.Base.{Result, trim_space, refl, [], Any, none, true, some, ◌↔◌, ◌≡◌}

abbrev raw : Config
raw = record {
  server = record {
    http_listen = "";
    public_base_url = "http://mcp/";
    mcp_endpoint = "";
    read_timeout = pos 0;
    write_timeout = pos 5;
  };
  logging = record { level = ""; format = "text" };
  observability = record { metrics_enabled = true; metrics_path = "" };
  oauth = record {
    issuer = "https://issuer";
    audience = "mcp";
    jwks_url = "https://issuer/keys";
    protected_resource_metadata_url = "";
  };
  gateway = record { base_url = "http://gateway"; admin_api_key = "key" };
  auth = record {
    default_challenge_scope = "";
    scopes_supported = [];
    required_scopes = [];
    tool_scope_map = ("get_stats", "read") ∷ [];
    static_bearer = "";
    stdio_client_id = "";
  };
  audit = record { backend = ""; sqlite_path = ""; postgres_url = "" };
}

abbrev file : Result String Config
file = ok raw

abbrev plain : String → String
plain s = s

fills_in_metadata :
    (apply_defaults raw).oauth.protected_resource_metadata_url
    ≡ "http://mcp/.well-known/oauth-protected-resource"
unfolding apply_defaults lumen_mcp_server.Config.text_or lumen_mcp_server.Base.trim_slashes
fills_in_metadata = refl

accepts : validate plain (apply_defaults raw) ≡ none
unfolding validate apply_defaults lumen_mcp_server.Base.trim_space lumen_mcp_server.Config.text_or
accepts = refl

refuses_backend :
    validate plain (record (apply_defaults raw) {
      audit = record { backend = "mysql"; sqlite_path = ""; postgres_url = "" };
    })
    ≡ some "unsupported audit.backend: mysql"
unfolding validate apply_defaults lumen_mcp_server.Base.trim_space
refuses_backend = refl

loads : load plain file ≡ ok (apply_defaults raw)
unfolding load apply_defaults lumen_mcp_server.Base.trim_space lumen_mcp_server.Config.text_or
loads = refl

allows :
    (check (authorize_of (apply_defaults raw)) ("mcp:tools" ∷ "read" ∷ []) "get_stats").allowed
    ≡ true
unfolding check apply_defaults lumen_mcp_server.Base.trim_space
    lumen_mcp_server.Authorize.has_any_scope lumen_mcp_server.Authorize.has_scope
    lumen_mcp_server.Base.equal_fold lumen_mcp_server.Base.lookup lumen_mcp_server.Base.lower_eq
allows = refl

validate-IsValid_example :
    (validate plain (apply_defaults raw) ≡ none) ↔ IsValid (apply_defaults raw)
validate-IsValid_example = validate-IsValid plain (apply_defaults raw)

load-ok_iff_example : (load plain file ≡ ok (apply_defaults raw)) ↔ (
    (r : Config) × (file ≡ ok r)
    × (apply_defaults raw ≡ apply_defaults r)
    × IsValid (apply_defaults raw))
load-ok_iff_example = load-ok_iff plain file (apply_defaults raw)

load-Holds_example :
    (r : String) × Any (λ x. r ≡ x) (apply_defaults raw).auth.required_scopes
    × Holds ("mcp:tools" ∷ "read" ∷ []) (trim_space r)
load-Holds_example =
    load-Holds plain file (apply_defaults raw) ("mcp:tools" ∷ "read" ∷ []) "get_stats" loads allows
