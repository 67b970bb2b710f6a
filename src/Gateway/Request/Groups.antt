-- ===== src/Gateway/Request/Groups.antt =====
-- The groups of tools of `buildRequest`: what the name of a tool says of its kind and its method.
use lumen_mcp_server.Base.{
  ◌⊎◌, false, if◌then◌else◌, has_prefix, ◌||◌, String, ◌≡◌, refl, true, some, List, [], ◌∷◌, ◌++◌,
  All, arith, eq_iff, ◌==◌, Bool-cases, inl, inr,
}
use lumen_mcp_server.Gateway.Request.{
  list_tools, one_of, get_tools, put_tools, patch_tools, delete_tools, kind_of,
}

abbrev pub write_tools : List String
write_tools = put_tools ++ patch_tools

-- The tools that name a resource by its id.
abbrev pub id_tools : List String
id_tools = get_tools ++ (write_tools ++ delete_tools)

pub one_of-elim :
    (P : String → Type 0) (tool_name : String) (names : List String)
    → All P names
    → one_of tool_name names ≡ true
    → P tool_name
one_of-elim P tool_name [] all h = cc
one_of-elim P tool_name (n ∷ names) all h = elim (Bool-cases (tool_name == n)) [
  | inl same ↦ rw ((eq_iff tool_name n).0 same) all.0
  | inr other ↦ one_of-elim P tool_name names all.1 (rw other at h)
]

pub one_of-append :
    (tool_name : String) (xs ys : List String)
    → one_of tool_name (xs ++ ys) ≡ (one_of tool_name xs || one_of tool_name ys)
one_of-append tool_name [] ys = refl
one_of-append tool_name (x ∷ xs) ys = ground (arith, one_of-append tool_name xs ys)

abbrev pub HasKind : String → Type 0
HasKind tool_name = (kind : String) × (kind_of tool_name ≡ some kind)

pub id_tools-HasKind : (tool_name : String) → one_of tool_name id_tools ≡ true → HasKind tool_name
unfolding kind_of
id_tools-HasKind tool_name = one_of-elim HasKind tool_name id_tools (
  ("routes", refl),
  (
    ("services", refl),
    (
      ("upstreams", refl),
      (
        ("plugin_configs", refl),
        (
          ("global_rules", refl),
          (
            ("routes", refl),
            (
              ("services", refl),
              (
                ("upstreams", refl),
                (
                  ("plugin_configs", refl),
                  (
                    ("global_rules", refl),
                    (
                      ("routes", refl),
                      (
                        ("services", refl),
                        (
                          ("upstreams", refl),
                          (
                            ("plugin_configs", refl),
                            (
                              ("global_rules", refl),
                              (
                                ("routes", refl),
                                (
                                  ("services", refl),
                                  (
                                    ("upstreams", refl),
                                    (("plugin_configs", refl), (("global_rules", refl), tt)),
                                  ),
                                ),
                              ),
                            ),
                          ),
                        ),
                      ),
                    ),
                  ),
                ),
              ),
            ),
          ),
        ),
      ),
    ),
  ),
)

-- The HTTP method that a tool's name promises.
abbrev pub verb : String → String
verb tool_name =
    if has_prefix tool_name "get_"
    then "GET"
    else if has_prefix tool_name "put_"
    then "PUT"
    else if has_prefix tool_name "patch_"
    then "PATCH"
    else "DELETE"

abbrev pub IsVerb : String → String → Type 0
IsVerb method tool_name = (verb tool_name ≡ method) × (one_of tool_name list_tools ≡ false)

-- Each of five tools has the verb, and none of them lists.
module _ (method a b c d e : String) where
  five_verbs :
      (tool_name : String)
      → IsVerb method a × IsVerb method b × IsVerb method c × IsVerb method d × IsVerb method e
      → one_of tool_name (a ∷ b ∷ c ∷ d ∷ e ∷ []) ≡ true
      → IsVerb method tool_name
  five_verbs tool_name (va, vb, vc, vd, ve) =
      one_of-elim (IsVerb method) tool_name (a ∷ b ∷ c ∷ d ∷ e ∷ [])
        (va, (vb, (vc, (vd, (ve, tt)))))

pub get-IsVerb : (t : String) → one_of t get_tools ≡ true → IsVerb "GET" t
unfolding has_prefix
get-IsVerb t =
    five_verbs "GET" "get_route" "get_service" "get_upstream" "get_plugin_config" "get_global_rule"
      t ((refl, refl), (refl, refl), (refl, refl), (refl, refl), (refl, refl))

pub put-IsVerb : (t : String) → one_of t put_tools ≡ true → IsVerb "PUT" t
unfolding has_prefix
put-IsVerb t =
    five_verbs "PUT" "put_route" "put_service" "put_upstream" "put_plugin_config" "put_global_rule"
      t ((refl, refl), (refl, refl), (refl, refl), (refl, refl), (refl, refl))

pub patch-IsVerb : (t : String) → one_of t patch_tools ≡ true → IsVerb "PATCH" t
unfolding has_prefix
patch-IsVerb t =
    five_verbs "PATCH" "patch_route" "patch_service" "patch_upstream" "patch_plugin_config"
      "patch_global_rule" t ((refl, refl), (refl, refl), (refl, refl), (refl, refl), (refl, refl))

pub delete-IsVerb : (t : String) → one_of t delete_tools ≡ true → IsVerb "DELETE" t
unfolding has_prefix
delete-IsVerb t =
    five_verbs "DELETE" "delete_route" "delete_service" "delete_upstream" "delete_plugin_config"
      "delete_global_rule" t ((refl, refl), (refl, refl), (refl, refl), (refl, refl), (refl, refl))

-- What the four groups of tools have in common, and what tells them apart.
abbrev pub Grouped : String → Type 0
Grouped t =
    (one_of t get_tools ≡ true)
    ⊎ ((one_of t put_tools ≡ true)
        ⊎ ((one_of t patch_tools ≡ true) ⊎ (one_of t delete_tools ≡ true)))

pub id_tools-Grouped : (t : String) → one_of t id_tools ≡ true → Grouped t
id_tools-Grouped t = one_of-elim Grouped t id_tools (
  inl refl,
  (
    inl refl,
    (
      inl refl,
      (
        inl refl,
        (
          inl refl,
          (
            inr (inl refl),
            (
              inr (inl refl),
              (
                inr (inl refl),
                (
                  inr (inl refl),
                  (
                    inr (inl refl),
                    (
                      inr (inr (inl refl)),
                      (
                        inr (inr (inl refl)),
                        (
                          inr (inr (inl refl)),
                          (
                            inr (inr (inl refl)),
                            (
                              inr (inr (inl refl)),
                              (
                                inr (inr (inr refl)),
                                (
                                  inr (inr (inr refl)),
                                  (
                                    inr (inr (inr refl)),
                                    (inr (inr (inr refl)), (inr (inr (inr refl)), tt)),
                                  ),
                                ),
                              ),
                            ),
                          ),
                        ),
                      ),
                    ),
                  ),
                ),
              ),
            ),
          ),
        ),
      ),
    ),
  ),
)

abbrev pub NotEarlier : List String → String → Type 0
NotEarlier names t = one_of t names ≡ false

pub put_not_get : (t : String) → one_of t put_tools ≡ true → NotEarlier get_tools t
put_not_get t =
    one_of-elim (NotEarlier get_tools) t put_tools (refl, (refl, (refl, (refl, (refl, tt)))))

pub patch-NotEarlier :
    (t : String) → one_of t patch_tools ≡ true → NotEarlier get_tools t × NotEarlier put_tools t
patch-NotEarlier t =
    one_of-elim (λ u. NotEarlier get_tools u × NotEarlier put_tools u) t patch_tools
      ((refl, refl), ((refl, refl), ((refl, refl), ((refl, refl), ((refl, refl), tt)))))

pub delete-NotEarlier :
    (t : String)
    → one_of t delete_tools ≡ true
    → NotEarlier get_tools t × NotEarlier put_tools t × NotEarlier patch_tools t
delete-NotEarlier t =
    one_of-elim (λ u. NotEarlier get_tools u × NotEarlier put_tools u × NotEarlier patch_tools u) t
      delete_tools
      (
        (refl, refl, refl),
        ((refl, refl, refl), ((refl, refl, refl), ((refl, refl, refl), ((refl, refl, refl), tt)))),
      )
