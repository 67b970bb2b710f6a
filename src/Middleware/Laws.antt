-- ===== src/Middleware/Laws.antt =====
-- The order of the chain, and what CORS sets.
use mathlib.Core.List.{reverse-cons}
use lumen_mcp_server.Base.{
  lookup-assign_other, lookup-assign_same, true, reverse, any, Bool-cases, ◌≢◌, ◌↔◌, ◌⊎◌, Any,
  eq_iff, arith, false, ◌==◌, ◌≡◌, lookup, String, List, [], ◌∷◌, ◌++◌, none, some, inl, inr, refl,
}
use lumen_mcp_server.Middleware.{
  Handler, Middleware, Request, Headers, wrap, chain, allowed_origins, allow_origin, cors_headers,
  cors,
}

wrap-append :
    {S : Type 0} (h : Handler S) (xs ys : List (Middleware S))
    → wrap h (xs ++ ys) ≡ wrap (wrap h xs) ys
unfolding wrap
wrap-append h [] ys = refl
wrap-append h (x ∷ xs) ys = wrap-append (x h) xs ys

-- The first middleware of a chain is the outermost: it wraps the chain of the others, and an empty
-- chain is the handler.
pub chain-first :
    {S : Type 0} (h : Handler S) (m : Middleware S) (ms : List (Middleware S))
    → (chain h [] ≡ h) × (chain h (m ∷ ms) ≡ m (chain h ms))
unfolding chain wrap
chain-first h m ms = (refl, rw (reverse-cons, wrap-append h (reverse ms) (m ∷ [])) refl)

abbrev allow_header : String
allow_header = "Access-Control-Allow-Origin"

cors_headers-lookup :
    (origin : String) (w : Headers)
    → lookup allow_header (cors_headers origin w) ≡ lookup allow_header (allow_origin origin w)
unfolding cors_headers
cors_headers-lookup origin w =
    rw
      (
        lookup-assign_other allow_header "Access-Control-Expose-Headers" _ _ refl,
        lookup-assign_other allow_header "Access-Control-Allow-Headers" _ _ refl,
        lookup-assign_other allow_header "Access-Control-Allow-Methods" _ _ refl,
      )
      refl

-- The origin is one of those that are allowed.
abbrev pub IsAllowed : String → Type 0
IsAllowed origin = Any (λ o. origin ≡ o) allowed_origins

allow_origin-kept :
    (origin : String) (w : Headers)
    → (origin ≡ "") ⊎ (any (λ o. origin == o) allowed_origins ≡ false)
    → allow_origin origin w ≡ w
unfolding allow_origin
allow_origin-kept origin w (inl blank) = rw blank refl
allow_origin-kept origin w (inr bad) = elim (Bool-cases (origin == "")) [
  | inl blank ↦ rw (allow_origin, blank) refl
  | inr named ↦ rw (allow_origin, named, bad) refl
]

allow_origin-set :
    (origin : String) (w : Headers)
    → (origin == "") ≡ false
    → any (λ o. origin == o) allowed_origins ≡ true
    → lookup allow_header (allow_origin origin w) ≡ some origin
unfolding allow_origin
allow_origin-set origin w named fine =
    rw
      (
        named,
        fine,
        lookup-assign_other allow_header "Vary" _ _ refl,
        lookup-assign_other allow_header "Access-Control-Allow-Credentials" _ _ refl,
      )
      (lookup-assign_same allow_header origin w)

any-IsAllowed :
    (origin : String) → (any (λ o. origin == o) allowed_origins ≡ true) ↔ IsAllowed origin
any-IsAllowed origin =
    ground (arith, eq_iff origin "http://127.0.0.1:5173", eq_iff origin "http://localhost:5173")

IsAllowed-named : (origin : String) → IsAllowed origin → (origin == "") ≡ false
IsAllowed-named origin (inl e) = rw e refl
IsAllowed-named origin (inr (inl e)) = rw e refl
IsAllowed-named origin (inr (inr e)) = absurd e

allow_origin-lookup :
    (origin value : String) (w : Headers)
    → lookup allow_header w ≡ none
    → (lookup allow_header (allow_origin origin w) ≡ some value)
      ↔ ((value ≡ origin) × IsAllowed origin)
allow_origin-lookup origin value w clean = (
  λ e. elim (Bool-cases (any (λ o. origin == o) allowed_origins)) [
    | inl fine ↦
        let ok = (any-IsAllowed origin).0 fine in
        (cc (e, allow_origin-set origin w (IsAllowed-named origin ok) fine), ok)
    | inr bad ↦ cc (e, clean, allow_origin-kept origin w (inr bad))
  ],
  λ (same, ok).
      cc
        (same, allow_origin-set origin w (IsAllowed-named origin ok) ((any-IsAllowed origin).1 ok)),
)

-- A preflight request is answered with 204 and goes no further; any other request reaches the next
-- handler with the same state. Either way, if no origin was allowed before, the headers then allow an
-- origin exactly if it is the request's and one of the two that are permitted.
pub cors-allows :
    {S : Type 0} (next : Handler S) (r : Request) (w : Headers) (st : S)
    → lookup allow_header w ≡ none
    → (w' : Headers) × (((r.method ≡ "OPTIONS")
          × (cors next r w st ≡ (record { status = 204; headers = w' }, st)))
        ⊎ ((r.method ≢ "OPTIONS") × (cors next r w st ≡ next r w' st)))
      × ((value : String)
          → (lookup allow_header w' ≡ some value) ↔ ((value ≡ r.origin) × IsAllowed r.origin))
unfolding cors
cors-allows next r w st clean = (
  cors_headers r.origin w,
  elim (Bool-cases (r.method == "OPTIONS")) [
    | inl pre ↦ inl ((eq_iff r.method "OPTIONS").0 pre, rw (cors, pre) refl)
    | inr on ↦ inr (λ e. cc (on, (eq_iff r.method "OPTIONS").1 e), rw (cors, on) refl)
  ],
  λ value. rw (cors_headers-lookup r.origin w) (allow_origin-lookup r.origin value w clean),
)
