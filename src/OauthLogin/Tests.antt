-- ===== src/OauthLogin/Tests.antt =====
-- A login that gets its token and one that is refused, and the property of the login at the first.
use lumen_mcp_server.Base.{
  String, List, [], ◌∷◌, length, pos, Result, ok, err, ◌<>◌, lookup, ◌≡◌, refl, ok,
}
use lumen_mcp_server.OauthLogin.{Config, Arrival, cancelled, callback, Env, TokenResult}
use lumen_mcp_server.OauthLogin.Login.{login}
use lumen_mcp_server.OauthLogin.Login.Trace.{Action, recorded, Attempt}
use lumen_mcp_server.OauthLogin.Login.Guarded.{login-Attempt}

abbrev token : TokenResult
token = record {
  access_token = "t";
  token_type = "Bearer";
  expires_in = pos 60;
  refresh_token = "";
}

-- The callback comes with the given state.
abbrev env : String → Env Unit
env state = record {
  listen = λ w. (ok 8080, w);
  close = λ w. w;
  random = λ w. (ok "0123456789abcdefXYZ", w);
  sha256 = λ s. "h" <> s;
  base64 = λ s. s;
  marshal = λ r. ok "{}";
  read_registration = λ s. ok (record { client_id = "c"; client_secret = "" });
  read_token = λ s. ok token;
  exchange = λ w req. (ok (record { status = 200; content = "{}" }), w);
  open_browser = λ w url. w;
  arrival = λ w. (callback (("code", "1") ∷ ("state", state) ∷ []), w);
  answer = λ w page. w;
  shutdown = λ w. w;
}

abbrev config : Config
config = record {
  issuer = "https://as/";
  audience = "";
  scopes = "read" ∷ [];
  client_id = "";
  registration_url = "";
}

abbrev outcome : String → Result String TokenResult × (Unit {0} × List Action)
outcome state = login (recorded (env state)) (tt, []) config

granted : (outcome "0123456789abcdef").0 ≡ ok token
unfolding login lumen_mcp_server.OauthLogin.Dcr.register_client
    lumen_mcp_server.OauthLogin.Pkce.new_pkce lumen_mcp_server.OauthLogin.Pkce.random_state lookup
granted = refl

granted_log : length (outcome "0123456789abcdef").1.1 ≡ 7
unfolding login lumen_mcp_server.OauthLogin.Dcr.register_client
    lumen_mcp_server.OauthLogin.Pkce.new_pkce lumen_mcp_server.OauthLogin.Pkce.random_state lookup
granted_log = refl

refused : (outcome "other").0 ≡ err "authorization denied: state mismatch"
unfolding login lumen_mcp_server.OauthLogin.Dcr.register_client
    lumen_mcp_server.OauthLogin.Pkce.new_pkce lumen_mcp_server.OauthLogin.Pkce.random_state lookup
refused = refl

refused_log : length (outcome "other").1.1 ≡ 6
unfolding login lumen_mcp_server.OauthLogin.Dcr.register_client
    lumen_mcp_server.OauthLogin.Pkce.new_pkce lumen_mcp_server.OauthLogin.Pkce.random_state lookup
refused_log = refl

login-Attempt_example :
    Attempt
      (env "0123456789abcdef")
      config
      (outcome "0123456789abcdef").0
      (outcome "0123456789abcdef").1.1
login-Attempt_example = login-Attempt (env "0123456789abcdef") config tt
