-- ===== src/Gateway/Request/Totality.antt =====
-- When no request can be made.
use lumen_mcp_server.Base.{
  All, Result-cases, Result-cases, String, ◌≡◌, ◌≢◌, refl, sym, ◌∙◌, true, false, some, List, [],
  ◌∷◌, err, arith, eq_iff, ◌<>◌, ◌==◌, ◌⊎◌, inl, inr, Bool-cases,
}
use lumen_mcp_server.Json.{Fields, Numbers}
use lumen_mcp_server.Gateway.Args.{as_string, as_map}
use lumen_mcp_server.Gateway.Request.{
  one_of, list_tools, get_tools, put_tools, patch_tools, delete_tools, kind_of, id_request,
  write_request, control_request, build_request,
}
use lumen_mcp_server.Gateway.Request.Groups.{
  one_of-elim, id_tools, write_tools, id_tools-HasKind, id_tools-Grouped,
}
use lumen_mcp_server.Gateway.Request.Segments.{build-get, build-put, build-patch, build-delete}

-- A name that is not in a list is in no part of it.
not_within :
    (tool_name : String) (part names : List String)
    → All (λ n. one_of n names ≡ true) part
    → one_of tool_name names ≡ false
    → one_of tool_name part ≡ false
not_within tool_name part names all out = elim (Bool-cases (one_of tool_name part)) [
  | inl member ↦ cc (out, one_of-elim (λ n. one_of n names ≡ true) tool_name part all member)
  | inr absent ↦ absent
]

put_within :
    (tool_name : String) → one_of tool_name put_tools ≡ true → one_of tool_name write_tools ≡ true
put_within tool_name member =
    one_of-elim (λ n. one_of n write_tools ≡ true) tool_name put_tools
      (refl, (refl, (refl, (refl, (refl, tt))))) member

patch_within :
    (tool_name : String) → one_of tool_name patch_tools ≡ true → one_of tool_name write_tools ≡ true
patch_within tool_name member =
    one_of-elim (λ n. one_of n write_tools ≡ true) tool_name patch_tools
      (refl, (refl, (refl, (refl, (refl, tt))))) member

abbrev pub control_tools : List String
control_tools =
    "preview_import" ∷ "apply_import" ∷ "export_bundle" ∷ "history_list" ∷ "history_rollback"
    ∷ "get_schema" ∷ "list_plugins" ∷ "get_stats" ∷ []

-- Why there is no request, with the text of the error.
pub data Rejected {F : Type 0} (tool_name : String) (args : Fields F) : String → Type 0 where
  no_id :
      one_of tool_name id_tools ≡ true
      → as_string args "id" ≡ ""
      → Rejected tool_name args "missing args.id"
  no_body :
      {m : String}
      → one_of tool_name write_tools ≡ true
      → as_string args "id" ≢ ""
      → as_map args "body" ≡ err m
      → Rejected tool_name args "missing args.body object"
  no_entry :
      tool_name ≡ "history_rollback"
      → as_string args "id" ≡ ""
      → Rejected tool_name args "history_rollback requires args.id"
  unsupported :
      one_of tool_name list_tools ≡ false
      → one_of tool_name id_tools ≡ false
      → one_of tool_name control_tools ≡ false
      → Rejected tool_name args ("unsupported tool: " <> tool_name)

module _ {F : Type 0} (floats : Numbers F) (tool_name : String) (args : Fields F) (e : String) where
  id_request-err :
      (method kind : String)
      → kind_of tool_name ≡ some kind
      → id_request floats method tool_name args ≡ err e
      → (as_string args "id" ≡ "") × (e ≡ "missing args.id")
  unfolding id_request
  id_request-err method kind found h = ground (arith, eq_iff (as_string args "id") "")

  write_request-err :
      (method kind : String)
      → kind_of tool_name ≡ some kind
      → write_request floats method tool_name args ≡ err e
      → ((as_string args "id" ≡ "") × (e ≡ "missing args.id"))
        ⊎ ((m : String) × (as_string args "id" ≢ "")
            × (as_map args "body" ≡ err m)
            × (e ≡ "missing args.body object"))
  unfolding write_request
  write_request-err method kind found h = elim (Bool-cases (as_string args "id" == "")) [
    | inl blank ↦ inl (ground (arith, eq_iff (as_string args "id") ""))
    | inr full ↦ elim (Result-cases (as_map args "body")) [
      | inl (body, good) ↦ ground arith
      | inr (m, bad) ↦ inr (m, λ p. cc ((eq_iff (as_string args "id") "").1 p), bad, ground arith)
    ]
  ]

  control_request-err :
      control_request floats tool_name args ≡ err e
      → ((tool_name ≡ "history_rollback")
          × (as_string args "id" ≡ "")
          × (e ≡ "history_rollback requires args.id"))
        ⊎ ((one_of tool_name control_tools ≡ false) × (e ≡ "unsupported tool: " <> tool_name))
  unfolding control_request
  control_request-err h =
      ground (arith, eq_iff (as_string args "id") "", eq_iff tool_name "history_rollback")

  Rejected-id :
      (method : String)
      → one_of tool_name id_tools ≡ true
      → id_request floats method tool_name args ≡ err e
      → Rejected tool_name args e
  Rejected-id method member h =
      let (kind, found) = id_tools-HasKind tool_name member in
      let (blank, text) = id_request-err method kind found h in rw text (no_id member blank)

  Rejected-write :
      (method : String)
      → one_of tool_name id_tools ≡ true
      → one_of tool_name write_tools ≡ true
      → write_request floats method tool_name args ≡ err e
      → Rejected tool_name args e
  Rejected-write method member writes h =
      let (kind, found) = id_tools-HasKind tool_name member in
      elim (write_request-err method kind found h) [
        | inl (blank, text) ↦ rw text (no_id member blank)
        | inr (m, full, bad, text) ↦ rw text (no_body writes full bad)
      ]

  build-control :
      one_of tool_name id_tools ≡ false
      → one_of tool_name list_tools ≡ false
      → build_request floats tool_name args ≡ control_request floats tool_name args
  unfolding build_request
  build-control h k = rw (
    k,
    not_within tool_name get_tools id_tools (refl, (refl, (refl, (refl, (refl, tt))))) h,
    not_within tool_name put_tools id_tools (refl, (refl, (refl, (refl, (refl, tt))))) h,
    not_within tool_name patch_tools id_tools (refl, (refl, (refl, (refl, (refl, tt))))) h,
    not_within tool_name delete_tools id_tools (refl, (refl, (refl, (refl, (refl, tt))))) h,
  )

  no_list_error :
      one_of tool_name list_tools ≡ true → build_request floats tool_name args ≡ err e → ⊥
  unfolding build_request
  no_list_error lists h = cc (rw (lists, build_request) at h)

  -- There is no request only if the tool is for one resource and the argument `id` is missing or
  -- blank, or if it puts or patches and the argument `body` is no object, or if it rolls back and
  -- `id` is missing or blank, or if no tool that makes one request of its own has the name; the error
  -- says which.
  pub build_request-Rejected :
      build_request floats tool_name args ≡ err e → Rejected tool_name args e
  build_request-Rejected h = elim (Bool-cases (one_of tool_name id_tools)) [
    | inl member ↦ elim (id_tools-Grouped tool_name member) [
      | inl g ↦ Rejected-id "GET" member (sym (build-get floats tool_name args g) ∙ h)
      | inr (inl g) ↦
          Rejected-write "PUT" member (put_within tool_name g)
            (sym (build-put floats tool_name args g) ∙ h)
      | inr (inr (inl g)) ↦
          Rejected-write "PATCH" member (patch_within tool_name g)
            (sym (build-patch floats tool_name args g) ∙ h)
      | inr (inr (inr g)) ↦
          Rejected-id "DELETE" member (sym (build-delete floats tool_name args g) ∙ h)
    ]
    | inr other ↦ elim (Bool-cases (one_of tool_name list_tools)) [
      | inl lists ↦ absurd (no_list_error lists h)
      | inr single ↦ elim (control_request-err (sym (build-control other single) ∙ h)) [
        | inl (named, blank, text) ↦ rw text (no_entry named blank)
        | inr (unknown, text) ↦ rw text (unsupported single other unknown)
      ]
    ]
  ]
