-- ===== src/OauthLogin/Login/Trace.antt =====
-- What a login does to its surroundings.
use lumen_mcp_server.Base.{◌⊎◌, ok, [], ◌≢◌, ◌∷◌, ◌≡◌, err, String, List, Result, ℕ}
use lumen_mcp_server.OauthLogin.{
  PkceChallenge, Config, TokenResult, HttpRequest, Page, Arrival, cancelled, callback, Env,
}
use lumen_mcp_server.OauthLogin.Dcr.{registration_request}
use lumen_mcp_server.OauthLogin.Login.{
  query_get, build_authorize_url, exchange_request, callback_url_of, registration_url_of,
}

-- One thing that a login does, or that arrives.
pub data Action : Type 0 where
  listened : ℕ → Action
  sent : HttpRequest → Action
  opened : String → Action
  arrived : Arrival → Action
  answered : Page → Action
  closed shut : Action

abbrev pub listening : Result String ℕ → List Action → List Action
listening (err e) log = log
listening (ok port) log = listened port ∷ log

-- The same surroundings, which also keep what is done, the last first.
abbrev pub recorded : {W : Type 0} → Env W → Env (W × List Action)
recorded env = record {
  listen = λ (w, log). let (r, w') = env.listen w in (r, (w', listening r log));
  close = λ (w, log). (env.close w, closed ∷ log);
  random = λ (w, log). let (r, w') = env.random w in (r, (w', log));
  sha256 = env.sha256;
  base64 = env.base64;
  marshal = env.marshal;
  read_registration = env.read_registration;
  read_token = env.read_token;
  exchange = λ (w, log) req. let (r, w') = env.exchange w req in (r, (w', sent req ∷ log));
  open_browser = λ (w, log) url. (env.open_browser w url, opened url ∷ log);
  arrival = λ (w, log). let (a, w') = env.arrival w in (a, (w', arrived a ∷ log));
  answer = λ (w, log) page. (env.answer w page, answered page ∷ log);
  shutdown = λ (w, log). (env.shutdown w, shut ∷ log);
}

-- What a login chooses for the authorization: the client, the state and the verifier.
pub record Session : Type 0 where
  pub port : ℕ
  pub client_id : String
  pub state : String
  pub verifier : String

-- A query that yields no code: it tells of an error, its state is not the one that was sent, or it
-- has no code.
abbrev pub IsRefused : String → List (String × String) → Type 0
IsRefused state q =
    (query_get q "error" ≢ "") ⊎ ((query_get q "state" ≢ state) ⊎ (query_get q "code" ≡ ""))

-- A query that yields its code.
pub record IsGranted (state : String) (q : List (String × String)) : Type 0 where
  pub error : query_get q "error" ≡ ""
  pub state_sent : query_get q "state" ≡ state
  pub code : query_get q "code" ≢ ""

module _ {W : Type 0} (env : Env W) (cfg : Config) where
  -- The listener, and the one request of a registration, which is made only without a client's id.
  pub data Started (port : ℕ) : List Action → Type 0 where
    plain : Started port (listened port ∷ [])
    registered :
        (body : String)
        → cfg.client_id ≡ ""
        → Started port
            (sent (registration_request (registration_url_of cfg) body) ∷ listened port ∷ [])

  -- a verifier with its challenge
  abbrev pub keyed : String → PkceChallenge
  keyed verifier = record {
    verifier = verifier;
    challenge = env.base64 (env.sha256 verifier);
    method = "S256";
  }

  -- the URL that the browser opens, with the challenge of the session's verifier
  abbrev pub authorize_url : Session → String
  authorize_url s =
      build_authorize_url cfg.issuer s.client_id (callback_url_of s.port) s.state (keyed s.verifier)
        cfg.scopes cfg.audience

  -- What follows an arrival: a code is exchanged once, with the session's verifier, if the query
  -- grants it, and otherwise nothing is sent and the result is an error.
  pub data Settled (s : Session) (log : List Action)
      : Arrival → Result String TokenResult → List Action → Type 0 where
    stopped : (e : String) → Settled s log (cancelled e) (err e) log
    denied :
        (q : List (String × String)) (page : Page) (e : String)
        → IsRefused s.state q
        → Settled s log (callback q) (err e) (answered page ∷ log)
    exchanged :
        (q : List (String × String)) (page : Page) (r : Result String TokenResult)
        → IsGranted s.state q
        → Settled s log (callback q) r (
            sent (
              exchange_request cfg.issuer s.client_id
                (query_get q "code")
                (callback_url_of s.port)
                s.verifier)
            ∷ answered page
            ∷ log)

  -- What a login does, the last first: nothing without a listener; a listener that is closed after an
  -- error; or the browser's visit, one arrival and what follows it, and the end of the server.
  pub data Attempt : Result String TokenResult → List Action → Type 0 where
    unheard : (e : String) → Attempt (err e) []
    failed :
        (e : String) (port : ℕ) (log : List Action)
        → Started port log
        → Attempt (err e) (closed ∷ log)
    asked :
        (s : Session) (a : Arrival) (r : Result String TokenResult) (log after : List Action)
        → Started s.port log
        → Settled s (arrived a ∷ opened (authorize_url s) ∷ log) a r after
        → Attempt r (shut ∷ after)
