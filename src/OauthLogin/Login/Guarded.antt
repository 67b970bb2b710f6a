-- ===== src/OauthLogin/Login/Guarded.antt =====
-- A code is exchanged only where the callback grants it, and every listener is closed.
use lumen_mcp_server.Base.{
  ℕ, String, false, List, [], ◌∷◌, Result, ok, err, Bool-cases, ◌==◌, ◌<>◌, ◌≡◌, ◌≢◌, inl, inr,
  eq_iff, ok,
}
use text.Mathlib.TextLemmas.{nil-append, cons-append, cons≢nil}
use lumen_mcp_server.OauthLogin.{Config, DcrResponse, Arrival, cancelled, callback, Env}
use lumen_mcp_server.OauthLogin.Pkce.{challenge_of, new_pkce, random_state}
use lumen_mcp_server.OauthLogin.Dcr.{send_registration, register_client}
use lumen_mcp_server.OauthLogin.Login.{
  query_get, make_callback_handler, callback_url_of, registration_url_of, received, after_arrival,
  authorize, id_of, with_state, with_pkce, with_client, client_of, with_listener, login,
}
use lumen_mcp_server.OauthLogin.Login.Trace.{
  listening, keyed, Action, recorded, Session, Started, plain, registered, Settled, stopped, denied,
  exchanged, Attempt, unheard, failed, asked, listened,
}

-- a text around a colon is not empty
around_colon : (x y : String) → x <> (": " <> y) ≢ ""
around_colon String.[] y e = cons≢nil (rw (nil-append, cons-append) at e)
around_colon (String.◌∷◌ c x) y e = cons≢nil (rw cons-append at e)

around_colon-test : (x y : String) → (x <> (": " <> y) == "") ≡ false
around_colon-test x y = elim (Bool-cases (x <> (": " <> y) == "")) [
  | inl blank ↦ absurd (around_colon x y ((eq_iff (x <> (": " <> y)) "").0 blank))
  | inr some_text ↦ some_text
]

module _ {W : Type 0} (env : Env W) (cfg : Config) where
  after_arrival-Settled :
      (s : Session) (w : W) (log : List Action) (a : Arrival)
      → let ended =
          after_arrival
            (recorded env)
            cfg
            (callback_url_of s.port)
            s.client_id
            s.verifier
            s.state
            a
            (w, log) in
        Settled env cfg s log a ended.0 ended.1.1
  unfolding after_arrival received make_callback_handler
  after_arrival-Settled s w log (cancelled e) = stopped e
  after_arrival-Settled s w log (callback q) = elim (Bool-cases (query_get q "error" == "")) [
    | inr set ↦
        rw (set, around_colon-test (query_get q "error") (query_get q "error_description"))
          (denied q _ _ (inl (λ e. cc (set, (eq_iff (query_get q "error") "").1 e))))
    | inl clean ↦ elim (Bool-cases (query_get q "state" == s.state)) [
      | inr other ↦
          rw (clean, other)
            (denied q _ _ (inr (inl (λ e. cc (other, (eq_iff (query_get q "state") s.state).1 e)))))
      | inl same ↦ elim (Bool-cases (query_get q "code" == "")) [
        | inl blank ↦
            rw (clean, same, blank)
              (denied q _ _ (inr (inr ((eq_iff (query_get q "code") "").0 blank))))
        | inr coded ↦
            rw (clean, same, coded)
              (exchanged q _ _ (record {
                error = (eq_iff (query_get q "error") "").0 clean;
                state_sent = (eq_iff (query_get q "state") s.state).0 same;
                code = λ e. cc (coded, (eq_iff (query_get q "code") "").1 e);
              }))
      ]
    ]
  ]

  with_state-Attempt :
      (port : ℕ) (client_id verifier : String) (state : Result String String) (w : W)
      (log : List Action)
      → Started env cfg port log
      → let ended =
          with_state
            (recorded env)
            cfg
            (callback_url_of port)
            client_id
            (keyed env cfg verifier)
            state
            (w, log) in
        Attempt env cfg ended.0 ended.1.1
  unfolding with_state authorize
  with_state-Attempt port client_id verifier (err e) w log started = failed e port log started
  with_state-Attempt port client_id verifier (ok state) w log started =
      let s : Session = record {
        port = port;
        client_id = client_id;
        state = state;
        verifier = verifier;
      } in
      asked s _ _ log _ started (after_arrival-Settled s _ _ _)

  with_pkce-Attempt :
      (port : ℕ) (client_id : String) (bytes : Result String String) (w : W) (log : List Action)
      → Started env cfg port log
      → let ended =
          with_pkce
            (recorded env)
            cfg
            (callback_url_of port)
            client_id
            (challenge_of (recorded env) bytes)
            (w, log) in
        Attempt env cfg ended.0 ended.1.1
  unfolding with_pkce challenge_of random_state new_pkce
  with_pkce-Attempt port client_id (err e) w log started = failed _ port log started
  with_pkce-Attempt port client_id (ok bytes) w log started =
      with_state-Attempt port client_id (env.base64 bytes) _ _ log started

  with_client-Attempt :
      (port : ℕ) (client_id : Result String String) (w : W) (log : List Action)
      → Started env cfg port log
      → let ended = with_client (recorded env) cfg (callback_url_of port) client_id (w, log) in
        Attempt env cfg ended.0 ended.1.1
  unfolding with_client new_pkce
  with_client-Attempt port (err e) w log started = failed _ port log started
  with_client-Attempt port (ok client_id) w log started =
      with_pkce-Attempt port client_id _ _ log started

  id_of-Started :
      (port : ℕ) (r : Result String DcrResponse) (w : W) (log : List Action)
      → Started env cfg port log
      → Started env cfg port (id_of (recorded env) (r, (w, log))).1.1
  unfolding id_of
  id_of-Started port (err e) w log started = started
  id_of-Started port (ok dcr) w log started = started

  send_registration-Started :
      (port : ℕ) (body : Result String String) (w : W)
      → cfg.client_id ≡ ""
      → Started env cfg port
          (id_of (recorded env) (
            send_registration
              (recorded env)
              (w, listened port ∷ [])
              (registration_url_of cfg)
              body)).1.1
  unfolding send_registration id_of
  send_registration-Started port (err e) w unset = plain
  send_registration-Started port (ok body) w unset =
      id_of-Started port _ _ _ (registered body unset)

  client_of-Started :
      (port : ℕ) (w : W)
      → Started env cfg port
          (client_of (recorded env) cfg (callback_url_of port) (w, listened port ∷ [])).1.1
  unfolding client_of register_client
  client_of-Started port w = elim (Bool-cases (cfg.client_id == "")) [
    | inl unset ↦ rw unset (send_registration-Started port _ w ((eq_iff cfg.client_id "").0 unset))
    | inr set ↦ rw set plain
  ]

  with_listener-Attempt :
      (port : Result String ℕ) (w : W)
      → let ended = with_listener (recorded env) cfg port (w, listening port []) in
        Attempt env cfg ended.0 ended.1.1
  unfolding with_listener
  with_listener-Attempt (err e) w = unheard _
  with_listener-Attempt (ok port) w = with_client-Attempt port _ _ _ (client_of-Started port w)

  -- Whatever happens, a login does nothing without a listener, and in the end closes the listener that
  -- it has. It registers a client only if none is configured. It opens the browser at most once, with
  -- the challenge of its verifier, and takes one arrival. It then exchanges a code, once, with that
  -- verifier, only if the callback's query tells of no error, has the state that was sent, and has
  -- that code; otherwise it sends nothing more and its result is an error.
  pub login-Attempt :
      (w : W) → let ended = login (recorded env) (w, []) cfg in Attempt env cfg ended.0 ended.1.1
  unfolding login
  login-Attempt w = with_listener-Attempt _ _
