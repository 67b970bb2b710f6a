-- ===== src/Http.antt =====
-- internal/interfaces/http/handlers/handlers.go: the handlers of the HTTP interface, as functions from
-- a request to the response that the handler writes. The routing, the encoding of the body and what
-- net/http adds to a response are not part of it.
pub mod Admission
pub mod Listing
pub mod Statuses
pub mod Routes
mod Tests
use lumen_mcp_server.Base.{
  true, ◌||◌, not_pos, equal_fold, length, pos, some, ok, false, atoi, trim_space, Bool, [], not,
  ◌++◌, ◌==◌, none, err, ◌<>◌, if◌then◌else◌, Option, List, ℤ, ◌∷◌, Result, String, ℕ,
}
use lumen_mcp_server.Domain.{Event, Definition, Claims}
use lumen_mcp_server.Ports.{TokenVerifier, ToolCatalog, AuditStore}
use lumen_mcp_server.Authorize
use lumen_mcp_server.Invoke
use lumen_mcp_server.Invoke.{
  State, InvokeError, message, unauthorized, forbidden, failed, invoke_tool,
}

-- What a handler reads of a request: `Header.Get`, `URL.Query().Get("limit")`, the JSON body as the
-- tool and its arguments or the decoder's failure, and the trace id of the context.
pub record Request (Args : Type 0) : Type 0 where
  pub method : String
  pub authorization : String
  pub limit : String
  pub body : Option (String × Args)
  pub trace_id : String

-- The bodies: an error with its code, message and, for a tool call, the tool's name.
pub data Body (Payload : Type 0) : Type 0 where
  failure : String → String → Option String → Body Payload
  health : String → Body Payload
  metadata : String → List String → List String → List String → Body Payload
  tools : List Definition → ℕ → Body Payload
  events : List Event → ℕ → Body Payload
  result : Payload → Body Payload

-- A response, with the value that is handed to the encoder of its body.
pub record Response (Payload : Type 0) : Type 0 where
  pub status : ℕ
  pub headers : List (String × String)
  pub body : Body Payload

pub record Handler (V G A C Args Payload : Type 0) : Type 0 where
  pub invoker : Invoke.Service V G A Args Payload
  pub catalog : ToolCatalog C
  pub audit : AuditStore A
  pub resource : String
  pub authorization_server : String
  pub resource_metadata_url : String
  pub scopes_supported : List String
  pub default_challenge_scope : String
  pub verifier : Option (TokenVerifier V)
  pub authorize : Authorize.Service

abbrev pub json_content : String × String
json_content = ("Content-Type", "application/json")

abbrev pub write_error :
    {P : Type 0} → List (String × String) → ℕ → String → String → Option String → Response P
write_error headers status code text details = record {
  status = status;
  headers = headers ++ json_content ∷ [];
  body = failure code text details;
}

abbrev pub answer : {P : Type 0} → List (String × String) → Body P → Response P
answer headers body = record { status = 200; headers = headers; body = body }

unfoldable pub has_scope : List String → String → Bool
has_scope [] required = false
has_scope (scope ∷ scopes) required =
    let rest = has_scope scopes required in
    if equal_fold (trim_space scope) "admin:*" || equal_fold (trim_space scope) required
    then true
    else rest

-- the loop over `RequiredScopes`: the first one that is missing
unfoldable pub first_missing : List String → List String → Option String
first_missing [] scopes = none
first_missing (r ∷ rs) scopes =
    let rest = first_missing rs scopes in
    let required = trim_space r in
    if required == "" then rest else if has_scope scopes required then rest else some required

module _ {V G A C Args Payload : Type 0} (h : Handler V G A C Args Payload) where
  pub healthz : Response Payload
  healthz = answer (json_content ∷ []) (health "ok")

  unfoldable pub scopes_supported : List String
  scopes_supported = elim h.scopes_supported [
    | [] ↦ "mcp:tools" ∷ "read" ∷ "gateway:write" ∷ "oauth:write" ∷ []
    | s ∷ ss ↦ s ∷ ss
  ]

  pub protected_resource_metadata : Response Payload
  unfolding scopes_supported
  protected_resource_metadata =
      answer (json_content ∷ [])
        (metadata h.resource (h.authorization_server ∷ []) scopes_supported ("header" ∷ []))

  unfoldable pub write_bearer_challenge : Response Payload
  write_bearer_challenge =
      let value = "Bearer resource_metadata=\"" <> (h.resource_metadata_url <> "\"") in
      write_error
        ((
          "WWW-Authenticate",
          if h.default_challenge_scope == ""
              then value
              else value <> (", scope=\"" <> (h.default_challenge_scope <> "\"")),
        )
          ∷ [])
        401 "unauthorized" "bearer token required" none

  mcp : Request Args → Response Payload
  unfolding write_bearer_challenge
  mcp r =
      if not (r.method == "POST")
      then write_error [] 405 "method_not_allowed" "POST required" none
      else if r.authorization == ""
      then write_bearer_challenge
      else write_error [] 501 "mcp_http_not_implemented"
          "streamable HTTP MCP endpoint is not implemented yet" none

  check_scopes : Claims → Result (Response Payload) Claims
  unfolding first_missing
  check_scopes claims = elim (first_missing h.authorize.required_scopes claims.scopes) [
    | none ↦ ok claims
    | some required ↦
        err (write_error [] 403 "forbidden" ("missing required scope: " <> required) none)
  ]

  check_bearer : Result String Claims → Result (Response Payload) Claims
  unfolding write_bearer_challenge check_scopes
  check_bearer (err e) = err write_bearer_challenge
  check_bearer (ok claims) = check_scopes claims

  with_verifier : Option (TokenVerifier V) → String → V → Result (Response Payload) Claims × V
  unfolding check_bearer
  with_verifier none bearer st =
      (err (write_error [] 401 "unauthorized" "token verifier is not configured" none), st)
  with_verifier (some v) bearer st =
      let (verified, st') = v.verify_bearer st bearer in (check_bearer verified, st')

  -- The claims, or the response that is written instead.
  unfoldable pub require_authorized : Request Args → V → Result (Response Payload) Claims × V
  unfolding write_bearer_challenge with_verifier
  require_authorized r st =
      if trim_space r.authorization == ""
      then (err write_bearer_challenge, st)
      else with_verifier h.verifier (trim_space r.authorization) st

  tools_body : Result String (List Definition) → Response Payload
  tools_body (err e) = write_error [] 500 "internal_error" e none
  tools_body (ok ds) = answer [] (tools ds (length ds))

  after_tools_check : C → Result (Response Payload) Claims → Response Payload
  unfolding tools_body
  after_tools_check c (err response) = response
  after_tools_check c (ok claims) = tools_body (h.catalog.list c)

  unfoldable pub list_tools : C → Request Args → V → Response Payload × V
  unfolding require_authorized after_tools_check
  list_tools c r st =
      let (checked, st') = require_authorized r st in (after_tools_check c checked, st')

  -- the limit of the query, where it is a positive number
  unfoldable pub limit_of : String → ℤ
  limit_of raw = elim (atoi raw) [ none ↦ pos 20 | some v ↦ if not_pos v then pos 20 else v ]

  events_body : Option (Result String (List Event)) → Option (Response Payload)
  events_body none = none
  events_body (some (err e)) = some (write_error [] 500 "internal_error" e none)
  events_body (some (ok es)) = some (answer [] (events es (length es)))

  after_audit_check :
      Request Args
      → State V G A
      → Result (Response Payload) Claims
      → Option (Response Payload) × State V G A
  unfolding events_body limit_of
  after_audit_check r st (err response) = (some response, st)
  after_audit_check r st (ok claims) =
      let (listed, audit) = h.audit.list st.audit (limit_of r.limit) in
      (events_body listed, record st { audit = audit })

  -- `none` is a listing that panics, for the middleware to recover.
  unfoldable pub list_audit : Request Args → State V G A → Option (Response Payload) × State V G A
  unfolding require_authorized after_audit_check
  list_audit r st =
      let (checked, verifier) = require_authorized r st.verifier in
      after_audit_check r (record st { verifier = verifier }) checked

  abbrev pub respond : String → Result InvokeError Payload → Response Payload
  respond tool_name (err (unauthorized e)) = write_error [] 401 "unauthorized" e (some tool_name)
  respond tool_name (err (forbidden e)) = write_error [] 403 "forbidden" e (some tool_name)
  respond tool_name (err (failed e)) = write_error [] 500 "invoke_failed" e (some tool_name)
  respond tool_name (ok payload) = answer [] (result payload)

  unfoldable pub call_body :
      ℕ → Request Args → State V G A → Option (String × Args) → Response Payload × State V G A
  call_body now r st none = (write_error [] 400 "invalid_request" "invalid json body" none, st)
  call_body now r st (some (tool_name, args)) =
      let (outcome, st') = invoke_tool h.invoker now tool_name args r.trace_id r.authorization st in
      (respond tool_name outcome, st')

  unfoldable pub handle_invoke : ℕ → Request Args → State V G A → Response Payload × State V G A
  unfolding call_body
  handle_invoke now r st =
      if not (r.method == "POST")
      then (write_error [] 405 "method_not_allowed" "POST required" none, st)
      else call_body now r st r.body
