-- ===== src/Authorize/Monotone.antt =====
-- The decision depends on which scopes a token has, and more scopes never take a tool away.
use lumen_mcp_server.Base.{String, ◌≡◌, refl, true, List, [], ◌∷◌, Any, inl, inr}
use lumen_mcp_server.Authorize.{Service, check}
use lumen_mcp_server.Authorize.Spec.{MeetsRequired, MeetsTool}
use lumen_mcp_server.Authorize.Laws.{check-allowed_iff}

-- Every text of the first list stands in the second.
abbrev pub Within : List String → List String → Type 0
Within xs ys = (a : String) → Any (λ x. a ≡ x) xs → Any (λ y. a ≡ y) ys

Any-at :
    (P : String → Type 0) (a : String) (xs : List String) → Any (λ x. a ≡ x) xs → P a → Any P xs
Any-at P a [] m p = absurd m
Any-at P a (x ∷ xs) (inl e) p = inl (rw e at p)
Any-at P a (x ∷ xs) (inr m) p = inr (Any-at P a xs m p)

Any-Within : (P : String → Type 0) (xs ys : List String) → Within xs ys → Any P xs → Any P ys
Any-Within P [] ys sub m = absurd m
Any-Within P (x ∷ xs) ys sub (inl p) = Any-at P x ys (sub x (inl refl)) p
Any-Within P (x ∷ xs) ys sub (inr m) = Any-Within P xs ys (λ a n. sub a (inr n)) m

MeetsRequired-Within :
    (rs xs ys : List String) → Within xs ys → MeetsRequired rs xs → MeetsRequired rs ys
MeetsRequired-Within [] xs ys sub m = tt
MeetsRequired-Within (r ∷ rs) xs ys sub (inl blank, m) =
    (inl blank, MeetsRequired-Within rs xs ys sub m)
MeetsRequired-Within (r ∷ rs) xs ys sub (inr held, m) =
    (inr (Any-Within _ xs ys sub held), MeetsRequired-Within rs xs ys sub m)

MeetsTool-Within :
    (s : Service) (xs ys : List String) (tool_name : String)
    → Within xs ys
    → MeetsTool s xs tool_name
    → MeetsTool s ys tool_name
MeetsTool-Within s xs ys tool_name sub (required, found, inl admin) =
    (required, found, inl (Any-Within _ xs ys sub admin))
MeetsTool-Within s xs ys tool_name sub (required, found, inr held) =
    (required, found, inr (Any-Within _ xs ys sub held))

-- If a list of scopes is allowed a tool, so is every list that holds all of those scopes, in any
-- order and with any others beside them.
pub check-Within :
    (s : Service) (xs ys : List String) (tool_name : String)
    → Within xs ys
    → (check s xs tool_name).allowed ≡ true
    → (check s ys tool_name).allowed ≡ true
check-Within s xs ys tool_name sub h =
    let (required, tool) = (check-allowed_iff s xs tool_name).0 h in
    (check-allowed_iff s ys tool_name).1 (
      MeetsRequired-Within s.required_scopes xs ys sub required,
      MeetsTool-Within s xs ys tool_name sub tool,
    )
