-- ===== src/Http/Tests.antt =====
-- Tests: requests to a server over the store in memory.
use lumen_mcp_server.Base.{
  none, err, ◌==◌, suc, length, ◌↔◌, if◌then◌else◌, [], some, pos, ok, ◌∷◌, ◌≡◌, List, ℕ, String,
  refl,
}
use lumen_mcp_server.Domain.{Claims, Event}
use lumen_mcp_server.Ports.{TokenVerifier, GatewayAdminClient, ToolCatalog}
use lumen_mcp_server.Audit.Memory.{MemoryStore, memory_store}
use lumen_mcp_server.Invoke.{State, invoke_tool}
use lumen_mcp_server.Http.{
  Request, Response, Handler, Body, events, failure, limit_of, list_audit, handle_invoke,
  require_authorized,
}
use lumen_mcp_server.Http.Admission.{Admitted, require_authorized-Admitted}
use lumen_mcp_server.Http.Listing.{Audited, list_audit-Admitted}
use lumen_mcp_server.Http.Statuses.{Answered, handle_invoke-Answered}

abbrev alice : Claims
alice = record { subject = "alice"; client = "cli"; scopes = "mcp:tools" ∷ "read" ∷ [] }

abbrev by_word : TokenVerifier ℕ
by_word = record {
  verify_bearer =
      λ v bearer. if bearer == "good" then (ok alice, suc v) else (err "bad token", suc v);
}

abbrev sevens : GatewayAdminClient ℕ String ℕ
sevens = record { invoke_tool = λ g tool_name args. (ok 7, suc g) }

abbrev no_tools : ToolCatalog ℕ
no_tools = record { list = λ c. ok [] }

abbrev server : Handler ℕ ℕ MemoryStore ℕ String ℕ
server = record {
  invoker = record {
    verifier = by_word;
    authorize = record {
      tool_scope_map = ("get_stats", "read") ∷ [];
      required_scopes = "mcp:tools" ∷ [];
    };
    gateway = sevens;
    audit = memory_store;
  };
  catalog = no_tools;
  audit = memory_store;
  resource = "mcp";
  authorization_server = "https://issuer";
  resource_metadata_url = "http://mcp/meta";
  scopes_supported = [];
  default_challenge_scope = "mcp:tools";
  verifier = some by_word;
  authorize = record {
    tool_scope_map = ("get_stats", "read") ∷ [];
    required_scopes = "mcp:tools" ∷ [];
  };
}

abbrev logged : Event
logged = record {
  at = 1;
  actor = "alice";
  client_id = "cli";
  tool = "get_stats";
  resource_kind = "";
  resource_id = "";
  result = "allow";
  trace_id = "t";
  message = "";
}

abbrev start : State ℕ ℕ MemoryStore
start = record { verifier = 0; gateway = 0; audit = record { events = logged ∷ [] } }

abbrev with_bearer : String → Request String
with_bearer bearer = record {
  method = "POST";
  authorization = bearer;
  limit = "5";
  body = some ("get_stats", "");
  trace_id = "t";
}

admits : (require_authorized server (with_bearer " good ") 0).0 ≡ ok alice
unfolding require_authorized lumen_mcp_server.Base.trim_space lumen_mcp_server.Http.has_scope
    lumen_mcp_server.Base.equal_fold
admits = refl

challenges :
    (list_audit server (with_bearer "bad") start).0
    ≡ some (record {
      status = 401;
      headers =
          ("WWW-Authenticate", "Bearer resource_metadata=\"http://mcp/meta\", scope=\"mcp:tools\"")
          ∷ ("Content-Type", "application/json")
          ∷ [];
      body = failure "unauthorized" "bearer token required" none;
    })
unfolding list_audit lumen_mcp_server.Base.trim_space
challenges = refl

shows :
    (list_audit server (with_bearer "good") start).0
    ≡ some (record { status = 200; headers = []; body = events (logged ∷ []) 1 })
unfolding list_audit lumen_mcp_server.Base.trim_space lumen_mcp_server.Http.has_scope
    lumen_mcp_server.Base.equal_fold memory_store lumen_mcp_server.Audit.Memory.list
    lumen_mcp_server.Base.atoi
shows = refl

calls : (handle_invoke server 5 (with_bearer "good") start).0.status ≡ 200
unfolding handle_invoke invoke_tool lumen_mcp_server.Authorize.check
    lumen_mcp_server.Base.trim_space lumen_mcp_server.Authorize.has_any_scope
    lumen_mcp_server.Authorize.has_scope lumen_mcp_server.Base.equal_fold
    lumen_mcp_server.Base.lookup lumen_mcp_server.Base.lower_eq
calls = refl

refuses : (handle_invoke server 5 (with_bearer "") start).0.status ≡ 401
unfolding handle_invoke invoke_tool
refuses = refl

limits : limit_of server "-3" ≡ pos 20
unfolding limit_of lumen_mcp_server.Base.atoi
limits = refl

require_authorized-Admitted_example :
    ((require_authorized server (with_bearer "good") 0).0 ≡ ok alice)
    ↔ Admitted server (with_bearer "good") 0 alice
require_authorized-Admitted_example =
    require_authorized-Admitted server (with_bearer "good") 0 alice

list_audit-Admitted_example :
    Audited server
      (with_bearer "good")
      start
      (list_audit server (with_bearer "good") start).0
      (list_audit server (with_bearer "good") start).1
list_audit-Admitted_example = list_audit-Admitted server (with_bearer "good") start

handle_invoke-Answered_example :
    Answered server 5
      (with_bearer "good")
      start
      (handle_invoke server 5 (with_bearer "good") start).0
      (handle_invoke server 5 (with_bearer "good") start).1
handle_invoke-Answered_example = handle_invoke-Answered server 5 (with_bearer "good") start
