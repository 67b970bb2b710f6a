-- ===== src/Http/Listing.antt =====
-- What `ListAudit` answers, by whether the request is let in.
use lumen_mcp_server.Base.{
  atoi, String, true, false, Option, none, some, List, length, ℤ, pos, not_pos, Result, ok, err,
  Result-cases, Option-cases, Bool-cases, ◌==◌, trim_space, ◌≡◌, ◌⊎◌, inl, inr, refl, arith,
}
use lumen_mcp_server.Domain.{Event, Claims}
use lumen_mcp_server.Ports.{TokenVerifier}
use lumen_mcp_server.Http.{
  limit_of, State, events, failure, after_audit_check, write_bearer_challenge, list_audit,
  events_body, Response, Request, Handler, first_missing, check_scopes, check_bearer, with_verifier,
  require_authorized,
}
use lumen_mcp_server.Http.Admission.{Admitted, require_authorized-Admitted}

module _ {V G A C Args Payload : Type 0} (h : Handler V G A C Args Payload) (r : Request Args) where
  -- A refusal has the status 401 or 403, and its body is an error's.
  pub record IsRefusal (response : Response Payload) : Type 0 where
    pub status : (response.status ≡ 401) ⊎ (response.status ≡ 403)
    pub code : String
    pub message : String
    pub body : response.body ≡ failure code message none

  written-IsRefusal :
      (response made : Response Payload) (code message : String)
      → made ≡ response
      → (made.status ≡ 401) ⊎ (made.status ≡ 403)
      → made.body ≡ failure code message none
      → IsRefusal response
  written-IsRefusal response made code message same status body =
      rw (← same) (record { status = status; code = code; message = message; body = body })

  err-inj :
      (a b : Response Payload) → ◌≡◌ {A = Result (Response Payload) Claims} (err a) (err b) → a ≡ b
  err-inj a b e = cc e

  check_scopes-IsRefusal :
      (found : Claims) (response : Response Payload)
      → check_scopes h found ≡ err response
      → IsRefusal response
  unfolding check_scopes
  check_scopes-IsRefusal found response e =
      elim (Option-cases (first_missing h.authorize.required_scopes found.scopes)) [
        | inl fine ↦ cc (rw (fine, check_scopes) at e)
        | inr (s, gone) ↦
            written-IsRefusal response _ _ _ (err-inj _ _ (rw (gone, check_scopes) at e)) (inr refl)
              refl
      ]

  with_verifier-IsRefusal :
      (o : Option (TokenVerifier V)) (bearer : String) (st : V) (response : Response Payload)
      → (with_verifier h o bearer st).0 ≡ err response
      → IsRefusal response
  unfolding with_verifier check_bearer write_bearer_challenge
  with_verifier-IsRefusal none bearer st response e =
      written-IsRefusal response _ _ _ (err-inj _ _ e) (inl refl) refl
  with_verifier-IsRefusal (some v) bearer st response e =
      elim (Result-cases (v.verify_bearer st bearer).0) [
        | inl (found, good) ↦ check_scopes-IsRefusal found response (rw (good, check_bearer) at e)
        | inr (x, bad) ↦
            written-IsRefusal response _ _ _ (err-inj _ _ (rw (bad, check_bearer) at e)) (inl refl)
              refl
      ]

  -- A request that is not let in is refused.
  require_authorized-IsRefusal :
      (st : V) (response : Response Payload)
      → (require_authorized h r st).0 ≡ err response
      → IsRefusal response
  unfolding require_authorized write_bearer_challenge
  require_authorized-IsRefusal st response e =
      elim (Bool-cases (trim_space r.authorization == "")) [
        | inl blank ↦
            written-IsRefusal response _ _ _ (err-inj _ _ (rw (blank, require_authorized) at e))
              (inl refl) refl
        | inr full ↦
            with_verifier-IsRefusal h.verifier (trim_space r.authorization) st response
              (rw (full, require_authorized) at e)
      ]

  -- What an admitted request for the log gets, by what the store lists: its events and their number,
  -- its error, or the panic of the listing.
  pub data Shown : Option (Result String (List Event)) → Option (Response Payload) → Type 0 where
    listed :
        (es : List Event) (response : Response Payload)
        → response.status ≡ 200
        → response.body ≡ events es (length es)
        → Shown (some (ok es)) (some response)
    failed :
        (e : String) (response : Response Payload)
        → response.status ≡ 500
        → response.body ≡ failure "internal_error" e none
        → Shown (some (err e)) (some response)
    panicked : Shown none none

  events_body-Shown : (o : Option (Result String (List Event))) → Shown o (events_body h o)
  unfolding events_body
  events_body-Shown none = panicked
  events_body-Shown (some (err e)) = failed e _ refl refl
  events_body-Shown (some (ok es)) = listed es _ refl refl

  -- The limit that a query asks for: a positive number, or else 20.
  pub record Asks (limit : ℤ) : Type 0 where
    pub positive : (v : ℤ) → atoi r.limit ≡ some v → not_pos v ≡ false → limit ≡ v
    pub otherwise : ((v : ℤ) → atoi r.limit ≡ some v → not_pos v ≡ true) → limit ≡ pos 20

  limit_of-Asks : Asks (limit_of h r.limit)
  unfolding limit_of
  limit_of-Asks = elim (Option-cases (atoi r.limit)) [
    | inl none_read ↦ record {
      positive = λ v e p. cc (e, none_read);
      otherwise = λ f. rw (limit_of, none_read) refl;
    }
    | inr (n, found) ↦ record {
      positive = λ v e p. ground (arith, found, e, p);
      otherwise = λ f. let low = f n found in rw (limit_of, found, low) refl;
    }
  ]

  -- What a request for the log comes to, by whether it is let in. Only then is the store touched, and
  -- it is asked for as many events as the request says.
  pub data Audited (st : State V G A) : Option (Response Payload) → State V G A → Type 0 where
    refused :
        (response : Response Payload) (st' : State V G A)
        → ((claims : Claims) → ¬ Admitted h r st.verifier claims)
        → IsRefusal response
        → st'.audit ≡ st.audit
        → st'.gateway ≡ st.gateway
        → Audited st (some response) st'
    admitted :
        (claims : Claims) (limit : ℤ) (o : Option (Response Payload)) (st' : State V G A)
        → Admitted h r st.verifier claims
        → Asks limit
        → Shown (h.audit.list st.audit limit).0 o
        → st'.audit ≡ (h.audit.list st.audit limit).1
        → st'.gateway ≡ st.gateway
        → Audited st o st'

  -- A request for the audit log that is not let in gets 401 or 403 and the body of an error, and the
  -- store is left as it is. For one that is let in, the store lists as many events as the query's limit
  -- says, if that is a positive number, or 20; the request gets 200 with what is listed, or 500 with
  -- the store's error, or panics if the listing does.
  pub list_audit-Admitted :
      (st : State V G A) → Audited st (list_audit h r st).0 (list_audit h r st).1
  unfolding list_audit after_audit_check
  list_audit-Admitted st = elim (Result-cases (require_authorized h r st.verifier).0) [
    | inl (claims, passed) ↦ rw passed (
        admitted claims (limit_of h r.limit) _ _
          ((require_authorized-Admitted h r st.verifier claims).0 passed) limit_of-Asks
          (events_body-Shown (h.audit.list st.audit (limit_of h r.limit)).0) refl refl)
    | inr (response, kept) ↦ rw kept (
        refused response _
          (λ claims a. cc ((require_authorized-Admitted h r st.verifier claims).1 a, kept))
          (require_authorized-IsRefusal st.verifier response kept) refl refl)
  ]
