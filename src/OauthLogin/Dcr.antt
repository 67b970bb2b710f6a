-- ===== src/OauthLogin/Dcr.antt =====
-- internal/infrastructure/oauthlogin/dcr.go: the dynamic registration of a client.
use lumen_mcp_server.Base.{
  String, not, ◌&&◌, [], ◌∷◌, Result, ok, err, map_err, eqb, if◌then◌else◌, ◌<>◌, map_err,
}
use lumen_mcp_server.Gateway.Client.{HttpResponse}
use lumen_mcp_server.OauthLogin.{
  DcrRequest, DcrResponse, HttpRequest, Failure, Env, failure_text, status_text,
}

abbrev dcr_request : String → DcrRequest
dcr_request callback_url = record {
  client_name = "lumen-mcp-stdio";
  redirect_uris = callback_url ∷ [];
  grant_types = "authorization_code" ∷ "refresh_token" ∷ [];
  response_types = "code" ∷ [];
  token_endpoint_auth_method = "none";
}

abbrev pub registration_request : String → String → HttpRequest
registration_request registration_url body = record {
  method = "POST";
  url = registration_url;
  content_type = "application/json";
  body = body;
}

module _ {W : Type 0} (env : Env W) where
  registered_of : Result Failure HttpResponse → Result String DcrResponse
  registered_of (err e) = err (failure_text "dcr request failed: " e)
  registered_of (ok r) =
      if not (eqb r.status 201) && not (eqb r.status 200)
      then err (status_text "dcr failed" r)
      else map_err (λ e. "dcr response parse failed: " <> e) (env.read_registration r.content)

  unfoldable pub send_registration :
      W → String → Result String String → Result String DcrResponse × W
  unfolding registered_of
  send_registration w registration_url (err e) = (err e, w)
  send_registration w registration_url (ok body) =
      let (r, w') = env.exchange w (registration_request registration_url body) in
      (registered_of r, w')

  unfoldable pub register_client : W → String → String → Result String DcrResponse × W
  unfolding send_registration
  register_client w registration_url callback_url =
      send_registration w registration_url (env.marshal (dcr_request callback_url))
