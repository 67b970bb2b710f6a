-- ===== src/Gateway/Request/Segments.antt =====
-- The resource that a request with an id addresses.
use lumen_mcp_server.Base.{
  sym, ◌⊎◌, ap, ◌∙◌, String, ◌≡◌, ◌≢◌, true, some, none, ok, arith, eq_iff, ◌<>◌, inl, inr,
  Result-cases,
}
use lumen_mcp_server.Json.{Fields, Numbers}
use lumen_mcp_server.Gateway.Url.{path_escape}
use lumen_mcp_server.Gateway.Url.Laws.{
  IsSegment, decode, bytes, path_escape-IsSegment, decode-path_escape,
}
use lumen_mcp_server.Gateway.Args.{as_string, as_map}
use lumen_mcp_server.Gateway.Request.{
  build_request, RequestSpec, one_of, get_tools, put_tools, patch_tools, delete_tools, kind_of,
  parse_kind_and_id, parse_write, id_request, write_request,
}
use lumen_mcp_server.Gateway.Request.Groups.{
  id_tools, verb, get-IsVerb, put-IsVerb, patch-IsVerb, delete-IsVerb, id_tools-Grouped,
  put_not_get, patch-NotEarlier, delete-NotEarlier,
}

module _ {F : Type 0} (floats : Numbers F) where
  -- A request addresses the resource of the tool's kind with the id that the arguments give: its path
  -- is the kind's collection and one segment, which decodes to the id.
  pub record Addresses (tool_name : String) (args : Fields F) (path : String) : Type 0 where
    pub kind : String
    pub segment : String
    pub inferred : kind_of tool_name ≡ some kind
    pub given : as_string args "id" ≢ ""
    pub whole : path ≡ "/apisix/admin/" <> (kind <> ("/" <> segment))
    pub inner : IsSegment segment
    pub decoded : decode segment ≡ bytes (as_string args "id")

  parse_kind_and_id-eq-ok :
      (tool_name : String) (args : Fields F) (kind id : String)
      → parse_kind_and_id floats tool_name args ≡ ok (kind, id)
      → (kind_of tool_name ≡ some kind) × (id ≡ as_string args "id") × (id ≢ "")
  unfolding parse_kind_and_id
  parse_kind_and_id-eq-ok tool_name args kind id h = ground (arith, eq_iff (as_string args "id") "")

  pub id_request-Addresses :
      (method tool_name : String) (args : Fields F) (spec : RequestSpec F)
      → id_request floats method tool_name args ≡ ok spec
      → (spec.method ≡ method) × (spec.body ≡ none) × Addresses tool_name args spec.path
  unfolding id_request
  id_request-Addresses method tool_name args spec h =
      elim (Result-cases (parse_kind_and_id floats tool_name args)) [
        | inr (e, bad) ↦ cc (rw (bad, id_request) at h)
        | inl ((kind, id), good) ↦
            let (inferred, same, nonblank) = parse_kind_and_id-eq-ok tool_name args kind id good in
            (
              ground (arith, good),
              ground (arith, good),
              record {
                kind = kind;
                segment = path_escape id;
                inferred = inferred;
                given = λ p. nonblank (same ∙ p);
                whole = ground (arith, good);
                inner = path_escape-IsSegment id;
                decoded = decode-path_escape id ∙ ap bytes same;
              },
            )
      ]

  parse_write-eq-ok :
      (tool_name : String) (args : Fields F) (kind id : String) (body : Fields F)
      → parse_write floats tool_name args ≡ ok (kind, id, body)
      → (parse_kind_and_id floats tool_name args ≡ ok (kind, id)) × (as_map args "body" ≡ ok body)
  unfolding parse_write
  parse_write-eq-ok tool_name args kind id body h = ground arith

  write_request-Addresses :
      (method tool_name : String) (args : Fields F) (spec : RequestSpec F)
      → write_request floats method tool_name args ≡ ok spec
      → (spec.method ≡ method)
        × ((body : Fields F) × (as_map args "body" ≡ ok body) × (spec.body ≡ some body))
        × Addresses tool_name args spec.path
  unfolding write_request
  write_request-Addresses method tool_name args spec h =
      elim (Result-cases (parse_write floats tool_name args)) [
        | inr (e, bad) ↦ cc (rw (bad, write_request) at h)
        | inl ((kind, id, body), good) ↦
            let (parsed, found) = parse_write-eq-ok tool_name args kind id body good in
            let (inferred, same, nonblank) =
              parse_kind_and_id-eq-ok tool_name args kind id parsed in
            (
              ground (arith, good),
              (body, found, ground (arith, good)),
              record {
                kind = kind;
                segment = path_escape id;
                inferred = inferred;
                given = λ p. nonblank (same ∙ p);
                whole = ground (arith, good);
                inner = path_escape-IsSegment id;
                decoded = decode-path_escape id ∙ ap bytes same;
              },
            )
      ]

module _ {F : Type 0} (floats : Numbers F) (tool_name : String) (args : Fields F) where
  pub build-get :
      one_of tool_name get_tools ≡ true
      → build_request floats tool_name args ≡ id_request floats "GET" tool_name args
  unfolding build_request
  build-get h = rw ((get-IsVerb tool_name h).1, h)

  pub build-put :
      one_of tool_name put_tools ≡ true
      → build_request floats tool_name args ≡ write_request floats "PUT" tool_name args
  unfolding build_request
  build-put h = rw ((put-IsVerb tool_name h).1, put_not_get tool_name h, h)

  pub build-patch :
      one_of tool_name patch_tools ≡ true
      → build_request floats tool_name args ≡ write_request floats "PATCH" tool_name args
  unfolding build_request
  build-patch h =
      let (no_get, no_put) = patch-NotEarlier tool_name h in
      rw ((patch-IsVerb tool_name h).1, no_get, no_put, h)

  pub build-delete :
      one_of tool_name delete_tools ≡ true
      → build_request floats tool_name args ≡ id_request floats "DELETE" tool_name args
  unfolding build_request
  build-delete h =
      let (no_get, no_put, no_patch) = delete-NotEarlier tool_name h in
      rw ((delete-IsVerb tool_name h).1, no_get, no_put, no_patch, h)

  -- The body: none for a read or a deletion, and the argument `body` for a write.
  abbrev pub Carries : RequestSpec F → Type 0
  Carries spec =
      ((spec.body ≡ none) × ((spec.method ≡ "GET") ⊎ (spec.method ≡ "DELETE")))
      ⊎ ((body : Fields F) × (as_map args "body" ≡ ok body)
          × (spec.body ≡ some body)
          × ((spec.method ≡ "PUT") ⊎ (spec.method ≡ "PATCH")))

  -- A tool for one resource makes a request with the method that its name says, to the collection of
  -- its kind and one path segment, which is not empty, holds no slash, question mark or number sign,
  -- and decodes to the bytes of the argument `id`. A write carries the argument `body`, and nothing
  -- else carries one.
  pub build_request-Addresses :
      (spec : RequestSpec F)
      → one_of tool_name id_tools ≡ true
      → build_request floats tool_name args ≡ ok spec
      → Addresses floats tool_name args spec.path × (spec.method ≡ verb tool_name) × Carries spec
  build_request-Addresses spec member built = elim (id_tools-Grouped tool_name member) [
    | inl h ↦
        let (m, b, a) =
          id_request-Addresses floats "GET" tool_name args spec (sym (build-get h) ∙ built) in
        (a, m ∙ sym (get-IsVerb tool_name h).0, inl (b, inl m))
    | inr (inl h) ↦
        let (m, (body, found, b), a) =
          write_request-Addresses floats "PUT" tool_name args spec (sym (build-put h) ∙ built) in
        (a, m ∙ sym (put-IsVerb tool_name h).0, inr (body, found, b, inl m))
    | inr (inr (inl h)) ↦
        let (m, (body, found, b), a) =
          write_request-Addresses floats "PATCH" tool_name args spec
            (sym (build-patch h) ∙ built) in
        (a, m ∙ sym (patch-IsVerb tool_name h).0, inr (body, found, b, inr m))
    | inr (inr (inr h)) ↦
        let (m, b, a) =
          id_request-Addresses floats "DELETE" tool_name args spec (sym (build-delete h) ∙ built) in
        (a, m ∙ sym (delete-IsVerb tool_name h).0, inl (b, inr m))
  ]
