-- ===== src/Bootstrap/Scopes.antt =====
-- The scopes of the catalogue say what the requests of `build_request` can do to the gateway.
use lumen_mcp_server.Base.{
  String, ◌≡◌, ◌≢◌, refl, ap, ◌∙◌, sym, true, some, none, List, [], ◌∷◌, All, Any, ok, arith,
  eq_iff, ◌⊎◌, inl, inr, lookup, ◌==◌, Bool-cases,
}
use lumen_mcp_server.Domain.{Definition}
use lumen_mcp_server.Json.{Fields, Numbers}
use lumen_mcp_server.Authorize
use lumen_mcp_server.Authorize.{check}
use lumen_mcp_server.Authorize.Spec.{IsAdmin, Holds}
use lumen_mcp_server.Authorize.Laws.{check-allowed_iff}
use lumen_mcp_server.Gateway.Request.{RequestSpec, one_of, build_request}
use lumen_mcp_server.Gateway.Request.Methods.{reading_tools, build_request-IsGet}
use lumen_mcp_server.Bootstrap.{catalog}

-- `auth.tool_scope_map` where it agrees with the catalogue.
abbrev pub scope_map : List Definition → List (String × String)
scope_map [] = []
scope_map (d ∷ ds) = (d.name, d.scope) ∷ scope_map ds

Any_elim :
    (P : Definition → Type 0) (d : Definition) (ds : List Definition)
    → All P ds
    → Any (λ x. d ≡ x) ds
    → P d
Any_elim P d [] all m = absurd m
Any_elim P d (x ∷ ds) all (inl e) = rw e all.0
Any_elim P d (x ∷ ds) all (inr m) = Any_elim P d ds all.1 m

lookup-scope_map :
    (t r : String) (ds : List Definition)
    → lookup t (scope_map ds) ≡ some r
    → (d : Definition) × Any (λ x. d ≡ x) ds × (d.name ≡ t) × (d.scope ≡ r)
unfolding lookup
lookup-scope_map t r [] h = cc
lookup-scope_map t r (d ∷ ds) h = elim (Bool-cases (d.name == t)) [
  | inl same ↦ (d, inl refl, (eq_iff d.name t).0 same, ground arith)
  | inr other ↦
      let (x, m, named, scoped) = lookup-scope_map t r ds (rw (other, lookup) at h) in
      (x, inr m, named, scoped)
]

distinct : ◌≢◌ {A = String} "gateway:write" "read"
distinct = ground (arith, eq_iff "gateway:write" "read")

abbrev HasScope : Definition → Type 0
HasScope d = (d.scope ≡ "read") ⊎ (d.scope ≡ "gateway:write")

catalog-HasScope : (d : Definition) → Any (λ x. d ≡ x) catalog → HasScope d
catalog-HasScope d = Any_elim HasScope d catalog (
  inl refl,
  (
    inl refl,
    (
      inr refl,
      (
        inr refl,
        (
          inr refl,
          (
            inl refl,
            (
              inr refl,
              (
                inl refl,
                (
                  inr refl,
                  (
                    inl refl,
                    (
                      inr refl,
                      (
                        inl refl,
                        (
                          inr refl,
                          (
                            inr refl,
                            (
                              inr refl,
                              (
                                inl refl,
                                (
                                  inl refl,
                                  (
                                    inr refl,
                                    (inl refl, (inl refl, (inl refl, (inl refl, (inr refl, tt))))),
                                  ),
                                ),
                              ),
                            ),
                          ),
                        ),
                      ),
                    ),
                  ),
                ),
              ),
            ),
          ),
        ),
      ),
    ),
  ),
)

abbrev Reads : Definition → Type 0
Reads d = d.scope ≡ "read" → one_of d.name reading_tools ≡ true

pub catalog-Reads : (d : Definition) → Any (λ x. d ≡ x) catalog → Reads d
catalog-Reads d = Any_elim Reads d catalog (
  λ h. refl,
  (
    λ h. refl,
    (
      λ h. absurd (distinct h),
      (
        λ h. absurd (distinct h),
        (
          λ h. absurd (distinct h),
          (
            λ h. refl,
            (
              λ h. absurd (distinct h),
              (
                λ h. refl,
                (
                  λ h. absurd (distinct h),
                  (
                    λ h. refl,
                    (
                      λ h. absurd (distinct h),
                      (
                        λ h. refl,
                        (
                          λ h. absurd (distinct h),
                          (
                            λ h. absurd (distinct h),
                            (
                              λ h. absurd (distinct h),
                              (
                                λ h. refl,
                                (
                                  λ h. refl,
                                  (
                                    λ h. absurd (distinct h),
                                    (
                                      λ h. refl,
                                      (
                                        λ h. refl,
                                        (λ h. refl, (λ h. refl, (λ h. absurd (distinct h), tt))),
                                      ),
                                    ),
                                  ),
                                ),
                              ),
                            ),
                          ),
                        ),
                      ),
                    ),
                  ),
                ),
              ),
            ),
          ),
        ),
      ),
    ),
  ),
)

module _ {F : Type 0} (floats : Numbers F) where
  -- What `build_request` makes for a tool of the catalogue whose scope is `read` is a GET request with
  -- no body.
  pub read_scope-IsGet :
      (d : Definition) (args : Fields F) (spec : RequestSpec F)
      → Any (λ x. d ≡ x) catalog
      → d.scope ≡ "read"
      → build_request floats d.name args ≡ ok spec
      → (spec.method ≡ "GET") × (spec.body ≡ none)
  read_scope-IsGet d args spec member reads built =
      build_request-IsGet floats args spec d.name (catalog-Reads d member reads) built

  -- Where the scope map agrees with the catalogue, `build_request` makes a request that is not a GET,
  -- for a tool that the scope check allows, only if the scopes hold `gateway:write`, by that name or an
  -- older one, or are an administrator's.
  pub write-needs_scope :
      (s : Authorize.Service) (scopes : List String) (tool_name : String) (args : Fields F)
      (spec : RequestSpec F)
      → s.tool_scope_map ≡ scope_map catalog
      → (check s scopes tool_name).allowed ≡ true
      → build_request floats tool_name args ≡ ok spec
      → spec.method ≢ "GET"
      → IsAdmin scopes ⊎ Holds scopes "gateway:write"
  write-needs_scope s scopes tool_name args spec agrees allowed built other =
      let (_, (required, found, held)) = (check-allowed_iff s scopes tool_name).0 allowed in
      let found' : lookup tool_name (scope_map catalog) ≡ some required =
        ap (lookup tool_name) (sym agrees) ∙ found in
      let (d, member, named, scoped) = lookup-scope_map tool_name required catalog found' in
      elim (catalog-HasScope d member) [
        | inl reads ↦ absurd (
            other
              (read_scope-IsGet d args spec member reads
                (ap (λ t. build_request floats t args) named ∙ built)).0)
        | inr writes ↦ rw (sym writes ∙ scoped) held
      ]
