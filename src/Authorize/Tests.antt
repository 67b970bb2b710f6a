-- ===== src/Authorize/Tests.antt =====
-- Runs of the scope check, and the properties at concrete inputs.
use lumen_mcp_server.Base.{
  String, ◌≡◌, refl, true, false, Bool, List, [], ◌∷◌, ◌↔◌, inl, inr, lookup, equal_fold, lower_eq,
  trim_space,
}
use lumen_mcp_server.Authorize.{Service, check, has_scope, has_any_scope}
use lumen_mcp_server.Authorize.Spec.{MeetsRequired, MeetsTool}
use lumen_mcp_server.Authorize.Laws.{check-allowed_iff}
use lumen_mcp_server.Authorize.Monotone.{Within, check-Within}
use lumen_mcp_server.Authorize.Reasons.{Denial, check-Denial}

abbrev svc : Service
svc = record {
  tool_scope_map = ("list_routes", "read") ∷ ("history_rollback", "gateway:write") ∷ [];
  required_scopes = "mcp:tools" ∷ [];
}

abbrev allows : List String → String → Bool
allows scopes tool_name = (check svc scopes tool_name).allowed

-- internal/application/authorize/service_test.go
check_matrix :
    (allows ("mcp:tools" ∷ "read" ∷ []) "list_routes" ≡ true)
    × (allows ("mcp:tools" ∷ "routes:read" ∷ []) "list_routes" ≡ true)
    × (allows ("mcp:tools" ∷ "routes:write" ∷ []) "history_rollback" ≡ true)
    × (allows ("mcp:tools" ∷ "admin:*" ∷ []) "history_rollback" ≡ true)
    × (allows ("mcp:tools" ∷ "read" ∷ []) "history_rollback" ≡ false)
    × (allows ("read" ∷ []) "list_routes" ≡ false)
    × (allows ("admin:*" ∷ []) "history_rollback" ≡ false)
    × (allows ("admin:*" ∷ []) "unknown_tool" ≡ false)
unfolding check has_any_scope has_scope lookup equal_fold lower_eq trim_space
check_matrix = (refl, refl, refl, refl, refl, refl, refl, refl)

check-allowed_iff_example :
    ((check svc ("mcp:tools" ∷ "READ" ∷ []) "list_routes").allowed ≡ true) ↔ (
      MeetsRequired svc.required_scopes ("mcp:tools" ∷ "READ" ∷ [])
      × MeetsTool svc ("mcp:tools" ∷ "READ" ∷ []) "list_routes")
check-allowed_iff_example = check-allowed_iff svc ("mcp:tools" ∷ "READ" ∷ []) "list_routes"

swapped : Within ("mcp:tools" ∷ "read" ∷ []) ("read" ∷ "other" ∷ "mcp:tools" ∷ [])
swapped a (inl e) = inr (inr (inl e))
swapped a (inr (inl e)) = inl e
swapped a (inr (inr h)) = absurd h

check-Within_example : allows ("read" ∷ "other" ∷ "mcp:tools" ∷ []) "list_routes" ≡ true
check-Within_example =
    check-Within svc ("mcp:tools" ∷ "read" ∷ []) ("read" ∷ "other" ∷ "mcp:tools" ∷ []) "list_routes"
      swapped check_matrix.0

check-Denial_example :
    Denial svc
      ("admin:*" ∷ [])
      "history_rollback"
      (check svc ("admin:*" ∷ []) "history_rollback").reason
check-Denial_example = check-Denial svc ("admin:*" ∷ []) "history_rollback" check_matrix.6

-- Letters beyond ASCII are folded too, a final sigma with the others.
letters_fold : equal_fold "ROUTES:ÄΣЖ" "routes:äςж" ≡ true
unfolding equal_fold
letters_fold = refl

letters_differ : equal_fold "ä" "a" ≡ false
unfolding equal_fold
letters_differ = refl
