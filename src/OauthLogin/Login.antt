-- ===== src/OauthLogin/Login.antt =====
-- internal/infrastructure/oauthlogin/login.go: the login, from the listener for the callback to the
-- exchange of the code for a token.
pub mod Trace
pub mod Guarded
use lumen_mcp_server.Base.{
  ℕ, String, not, none, some, List, [], ◌∷◌, pos, Result, ok, err, map_err, eqb, if◌then◌else◌,
  ◌==◌, ◌<>◌, lookup, itoa, trim_right_char, join,
}
use lumen_mcp_server.Gateway.Url.{Values, set_value, encode}
use lumen_mcp_server.Gateway.Client.{HttpResponse}
use lumen_mcp_server.OauthLogin.{
  Config, TokenResult, PkceChallenge, DcrResponse, CallbackResult, HttpRequest, Page, Arrival,
  cancelled, callback, Failure, Env, failure_text, status_text,
}
use lumen_mcp_server.OauthLogin.Pkce.{new_pkce, random_state}
use lumen_mcp_server.OauthLogin.Dcr.{register_client}

-- `r.URL.Query().Get(key)`
unfoldable pub query_get : List (String × String) → String → String
query_get q key = elim (lookup key q) [ none ↦ "" | some v ↦ v ]

abbrev bad_request : String → Page
bad_request content = record {
  status = 400;
  content_type = "text/plain; charset=utf-8";
  content = content <> "\n";
}

abbrev html : String → Page
html title = record {
  status = 200;
  content_type = "text/html";
  content = "<html><body><h2>" <> (title <> "</h2><p>You can close this tab.</p></body></html>");
}

-- what a request for the callback's path sends to the login and to the browser
unfoldable pub make_callback_handler : String → List (String × String) → CallbackResult × Page
unfolding query_get
make_callback_handler expected_state q =
    if not (query_get q "error" == "")
    then (
      record { code = ""; err = query_get q "error" <> (": " <> query_get q "error_description") },
      html "Authorization failed",
    )
    else if not (query_get q "state" == expected_state)
    then (record { code = ""; err = "state mismatch" }, bad_request "state mismatch")
    else if query_get q "code" == ""
    then (record { code = ""; err = "missing authorization code" }, bad_request "missing code")
    else (record { code = query_get q "code"; err = "" }, html "Authorization successful")

abbrev pub with_audience : String → Values → Values
with_audience audience v = if not (audience == "") then set_value "audience" audience v else v

unfoldable pub authorize_values :
    String → String → String → PkceChallenge → List String → String → Values
authorize_values client_id redirect_uri state pkce scopes audience = with_audience audience (
    ("response_type", "code")
    ∷ ("client_id", client_id)
    ∷ ("redirect_uri", redirect_uri)
    ∷ ("state", state)
    ∷ ("code_challenge", pkce.challenge)
    ∷ ("code_challenge_method", pkce.method)
    ∷ ("scope", join " " scopes)
    ∷ [])

unfoldable pub build_authorize_url :
    String → String → String → String → PkceChallenge → List String → String → String
unfolding authorize_values
build_authorize_url issuer client_id redirect_uri state pkce scopes audience =
    (trim_right_char b'/' issuer <> "/oauth/authorize")
    <> ("?" <> encode (authorize_values client_id redirect_uri state pkce scopes audience))

unfoldable pub exchange_request : String → String → String → String → String → HttpRequest
exchange_request issuer client_id code redirect_uri code_verifier = record {
  method = "POST";
  url = trim_right_char b'/' issuer <> "/oauth/token";
  content_type = "application/x-www-form-urlencoded";
  body = encode (
      ("grant_type", "authorization_code")
      ∷ ("client_id", client_id)
      ∷ ("code", code)
      ∷ ("redirect_uri", redirect_uri)
      ∷ ("code_verifier", code_verifier)
      ∷ []);
}

unfoldable pub callback_url_of : ℕ → String
callback_url_of port = "http://127.0.0.1:" <> (itoa (pos port) <> "/callback")

unfoldable pub registration_url_of : Config → String
registration_url_of cfg =
    if cfg.registration_url == ""
    then trim_right_char b'/' cfg.issuer <> "/oauth/register"
    else cfg.registration_url

module _ {W : Type 0} (env : Env W) where
  token_of : Result Failure HttpResponse → Result String TokenResult
  token_of (err e) = err (failure_text "token exchange failed: " e)
  token_of (ok r) =
      if not (eqb r.status 200)
      then err (status_text "token exchange failed" r)
      else map_err (λ e. "token response parse failed: " <> e) (env.read_token r.content)

  unfoldable pub exchange_code :
      W → String → String → String → String → String → Result String TokenResult × W
  unfolding token_of exchange_request
  exchange_code w issuer client_id code redirect_uri code_verifier =
      let (r, w') =
        env.exchange w (exchange_request issuer client_id code redirect_uri code_verifier) in
      (token_of r, w')

  received : Config → String → String → String → CallbackResult → W → Result String TokenResult × W
  unfolding exchange_code
  received cfg callback_url client_id verifier result w =
      if not (result.err == "")
      then (err ("authorization denied: " <> result.err), w)
      else exchange_code w cfg.issuer client_id result.code callback_url verifier

  -- the two cases of the `select`
  after_arrival :
      Config → String → String → String → String → Arrival → W → Result String TokenResult × W
  unfolding received make_callback_handler
  after_arrival cfg callback_url client_id verifier state (cancelled e) w = (err e, w)
  after_arrival cfg callback_url client_id verifier state (callback q) w =
      let (result, page) = make_callback_handler state q in
      received cfg callback_url client_id verifier result (env.answer w page)

  -- the browser, the wait and the shutdown of the server
  authorize : Config → String → String → PkceChallenge → String → W → Result String TokenResult × W
  unfolding after_arrival build_authorize_url
  authorize cfg callback_url client_id pkce state w =
      let auth_url =
        build_authorize_url cfg.issuer client_id callback_url state pkce cfg.scopes cfg.audience in
      let (a, w1) = env.arrival (env.open_browser w auth_url) in
      let (r, w2) = after_arrival cfg callback_url client_id pkce.verifier state a w1 in
      (r, env.shutdown w2)

  with_state :
      Config
      → String
      → String
      → PkceChallenge
      → Result String String
      → W
      → Result String TokenResult × W
  unfolding authorize
  with_state cfg callback_url client_id pkce (err e) w = (err e, env.close w)
  with_state cfg callback_url client_id pkce (ok state) w =
      authorize cfg callback_url client_id pkce state w

  with_pkce :
      Config → String → String → Result String PkceChallenge → W → Result String TokenResult × W
  unfolding with_state
  with_pkce cfg callback_url client_id (err e) w =
      (err ("failed to generate PKCE: " <> e), env.close w)
  with_pkce cfg callback_url client_id (ok pkce) w =
      let (state, w') = random_state env w in with_state cfg callback_url client_id pkce state w'

  with_client : Config → String → Result String String → W → Result String TokenResult × W
  unfolding with_pkce
  with_client cfg callback_url (err e) w =
      (err ("dynamic client registration failed: " <> e), env.close w)
  with_client cfg callback_url (ok client_id) w =
      let (pkce, w') = new_pkce env w in with_pkce cfg callback_url client_id pkce w'

  id_of : Result String DcrResponse × W → Result String String × W
  id_of (err e, w) = (err e, w)
  id_of (ok dcr, w) = (ok dcr.client_id, w)

  client_of : Config → String → W → Result String String × W
  unfolding id_of
  client_of cfg callback_url w =
      if cfg.client_id == ""
      then id_of (register_client env w (registration_url_of cfg) callback_url)
      else (ok cfg.client_id, w)

  with_listener : Config → Result String ℕ → W → Result String TokenResult × W
  unfolding with_client client_of callback_url_of
  with_listener cfg (err e) w = (err ("failed to start callback listener: " <> e), w)
  with_listener cfg (ok port) w =
      let (client_id, w') = client_of cfg (callback_url_of port) w in
      with_client cfg (callback_url_of port) client_id w'

  unfoldable pub login : W → Config → Result String TokenResult × W
  unfolding with_listener
  login w cfg = let (port, w') = env.listen w in with_listener cfg port w'
