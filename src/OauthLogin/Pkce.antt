-- ===== src/OauthLogin/Pkce.antt =====
-- internal/infrastructure/oauthlogin/pkce.go and login.go: the proof key of a code exchange, and the
-- random state.
use lumen_mcp_server.Base.{ℕ, zero, suc, String, Result, ok, err}
use lumen_mcp_server.OauthLogin.{PkceChallenge, Env}

abbrev first_chars : ℕ → String → String
first_chars zero s = ""
first_chars (suc n) String.[] = ""
first_chars (suc n) (String.◌∷◌ c s) = String.◌∷◌ c (first_chars n s)

module _ {W : Type 0} (env : Env W) where
  unfoldable pub challenge_of : Result String String → Result String PkceChallenge
  challenge_of (err e) = err e
  challenge_of (ok bytes) = ok (record {
    verifier = env.base64 bytes;
    challenge = env.base64 (env.sha256 (env.base64 bytes));
    method = "S256";
  })

  unfoldable pub new_pkce : W → Result String PkceChallenge × W
  unfolding challenge_of
  new_pkce w = let (bytes, w') = env.random w in (challenge_of bytes, w')

  state_of : Result String PkceChallenge → Result String String
  state_of (err e) = err e
  state_of (ok pkce) = ok (first_chars 16 pkce.verifier)

  unfoldable pub random_state : W → Result String String × W
  unfolding state_of new_pkce
  random_state w = let (pkce, w') = new_pkce w in (state_of pkce, w')
