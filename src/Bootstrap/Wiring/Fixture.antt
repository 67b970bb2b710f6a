-- ===== src/Bootstrap/Wiring/Fixture.antt =====
-- A concrete environment of the application, and a configuration.
use lumen_mcp_server.Base.{ℕ, true, none, some, [], ◌∷◌, pos, ok, err, if◌then◌else◌, ◌==◌, ok}
use lumen_mcp_server.Config.{Config}
use lumen_mcp_server.Json.{str}
use lumen_mcp_server.Gateway.Latency.Fixture.{floats, json, net, quote}
use lumen_mcp_server.Bootstrap.{catalog}
use lumen_mcp_server.Bootstrap.Scopes.{scope_map}
use lumen_mcp_server.Bootstrap.Wiring.{Outside}

abbrev pub outside : Outside ℕ Unit Unit
outside = record {
  floats = floats;
  json = json;
  net = net;
  quote = quote;
  order = λ groups. groups;
  tokens = record {
    decode_base64 =
        λ s. if s == "" then none else if s == "s" then some (115 ∷ []) else some (120 ∷ []);
    parse_header = λ b. some (record { alg = "HS256"; kid = "k1"; typ = "JWT" });
    parse_claims = λ b. some (record {
      iss = "https://as";
      sub = "alice";
      aud = str "";
      client_id = "";
      scope = "mcp:tools gateway:write";
      exp = pos 2000;
    });
    hmac = λ key signed. key;
  };
  sqlite_driver = record { open_handle = λ s. ok tt; ping = λ d. none; init_schema = λ d. none };
  postgres_driver = record {
    open_handle = λ s. err "no";
    ping = λ d. none;
    init_schema = λ d. none;
  };
  database = record {
    insert_row = λ d e. (none, d);
    select_rows = λ d n. (err "no", d);
    can_make = λ n. true;
  };
}

abbrev pub config : Config
config = record {
  server = record {
    http_listen = ":9280";
    public_base_url = "http://127.0.0.1:9280/";
    mcp_endpoint = "/mcp";
    read_timeout = pos 1;
    write_timeout = pos 1;
  };
  logging = record { level = "info"; format = "json" };
  observability = record { metrics_enabled = true; metrics_path = "/metrics" };
  oauth = record {
    issuer = "https://as";
    audience = "";
    jwks_url = "https://as/jwks";
    protected_resource_metadata_url = "";
  };
  gateway = record { base_url = "http://gw/"; admin_api_key = "k" };
  auth = record {
    default_challenge_scope = "mcp:tools";
    scopes_supported = [];
    required_scopes = "mcp:tools" ∷ [];
    tool_scope_map = scope_map catalog;
    static_bearer = "Bearer t";
    stdio_client_id = "";
  };
  audit = record { backend = "stdout"; sqlite_path = ""; postgres_url = "" };
}
