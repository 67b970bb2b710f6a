-- ===== src/Mcp/Schemas/Given.antt =====
-- What a schema requires of the arguments, and the requests with an id and with a body.
use lumen_mcp_server.Base.{
  String, false, Option, none, some, List, [], ◌∷◌, ok, Result-cases, ◌==◌, trim_space, ◌≡◌, ◌≢◌,
  ◌↔◌, ◌⊎◌, inl, inr, refl, sym, arith, eq_iff, All, ok,
}
use lumen_mcp_server.Json.{Value, str, arr, obj, Items, nil, cons, Fields, end, Numbers, get}
use lumen_mcp_server.Gateway.Args.{as_string, as_map}
use lumen_mcp_server.Gateway.Request.{
  resource_path, RequestSpec, kind_of, id_request, write_request, build_request,
}
use lumen_mcp_server.Mcp.Schemas.{id_schema, write_schema, input_schema_for}

string≢object : ◌≢◌ {A = String} "string" "object"
string≢object = ground (arith, eq_iff "string" "object")

module _ {F : Type 0} where
  abbrev pub names_in : Items F → List String
  names_in nil = []
  names_in (cons (str s) vs) = s ∷ names_in vs
  names_in (cons v vs) = names_in vs

  -- the names under `required`
  abbrev pub required_names : Option (Value F) → List String
  required_names (some (arr vs)) = names_in vs
  required_names v = []

  abbrev pub fields_in : Option (Value F) → Fields F
  fields_in (some (obj m)) = m
  fields_in v = end

  abbrev pub text_in : Option (Value F) → String
  text_in (some (str s)) = s
  text_in v = ""

  -- the type of a property
  abbrev pub type_of : Fields F → String → String
  type_of schema key =
      text_in (get "type" (fields_in (get key (fields_in (get "properties" schema)))))

  -- An argument that is a text which is not blank, and one that is an object.
  pub record IsText (args : Fields F) (key : String) : Type 0 where
    pub content : String
    pub stored : get key args ≡ some (str content)
    pub full : trim_space content ≢ ""

  pub record IsObject (args : Fields F) (key : String) : Type 0 where
    pub content : Fields F
    pub stored : get key args ≡ some (obj content)

  -- An argument of a type.
  abbrev pub Given : Fields F → String → String → Type 0
  Given args key type =
      ((type ≡ "string") × IsText args key) ⊎ ((type ≡ "object") × IsObject args key)

  -- Every argument that the schema requires is given, and has its type.
  abbrev pub Meets : Fields F → Fields F → Type 0
  Meets schema args =
      All (λ key. Given args key (type_of schema key)) (required_names (get "required" schema))

  pub IsText-as_string :
      (args : Fields F) (key : String) (v : Option (Value F))
      → get key args ≡ v
      → as_string args key ≢ ""
      → IsText args key
  unfolding as_string
  IsText-as_string args key (some (str s)) e full = record {
    content = s;
    stored = e;
    full = λ b. full (rw e b);
  }
  IsText-as_string args key none e full = absurd (full (rw e refl))
  IsText-as_string args key (some v) e full = absurd (full (rw e refl))

  pub as_string-IsText :
      (args : Fields F) (key : String) → IsText args key → as_string args key ≢ ""
  unfolding as_string
  as_string-IsText args key given b = given.full (rw given.stored at b)

  IsObject-as_map :
      (args m : Fields F) (key : String) (v : Option (Value F))
      → get key args ≡ v
      → as_map args key ≡ ok m
      → IsObject args key
  unfolding as_map
  IsObject-as_map args m key (some (obj n)) e good = record { content = n; stored = e }
  IsObject-as_map args m key none e good = cc (rw (e, as_map) at good)
  IsObject-as_map args m key (some v) e good = cc (rw (e, as_map) at good)

  as_map-IsObject :
      (args : Fields F) (key : String) (given : IsObject args key)
      → as_map args key ≡ ok given.content
  unfolding as_map
  as_map-IsObject args key given = rw given.stored refl

  pub Given-IsText : (args : Fields F) (key : String) → Given args key "string" → IsText args key
  Given-IsText args key given = elim given [
    | inl (_, t) ↦ t
    | inr (e, _) ↦ absurd (string≢object e)
  ]

  Given-IsObject : (args : Fields F) (key : String) → Given args key "object" → IsObject args key
  Given-IsObject args key given = elim given [
    | inl (e, _) ↦ absurd (string≢object (sym e))
    | inr (_, o) ↦ o
  ]

  module _ (floats : Numbers F) (args : Fields F) where
    -- There is a request for the tool.
    abbrev pub IsBuilt : String → Type 0
    IsBuilt tool_name = (spec : RequestSpec F) × (build_request floats tool_name args ≡ ok spec)

    -- There is one exactly if what the tool's schema requires is given.
    abbrev pub Agrees : String → Type 0
    Agrees tool_name = IsBuilt tool_name ↔ Meets (input_schema_for tool_name) args

    pub id_request-Meets :
        (method tool_name kind : String)
        → kind_of tool_name ≡ some kind
        → ((spec : RequestSpec F) × (id_request floats method tool_name args ≡ ok spec))
          ↔ Meets id_schema args
    unfolding id_request get
    id_request-Meets method tool_name kind found = (
      λ (spec, h).
          let full : as_string args "id" ≢ "" = ground (arith, eq_iff (as_string args "id") "") in
          (inl (refl, IsText-as_string args "id" (get "id" args) refl full), tt),
      λ (given, _).
          let full : (as_string args "id" == "") ≡ false = ground (
            arith,
            eq_iff (as_string args "id") "",
            as_string-IsText args "id" (Given-IsText args "id" given),
          ) in
          (
            record {
              method = method;
              path = resource_path floats kind (as_string args "id");
              body = none;
            },
            rw (full, found, id_request) refl,
          ),
    )

    pub write_request-Meets :
        (method tool_name kind : String)
        → kind_of tool_name ≡ some kind
        → ((spec : RequestSpec F) × (write_request floats method tool_name args ≡ ok spec))
          ↔ Meets write_schema args
    unfolding write_request get
    write_request-Meets method tool_name kind found = (
      λ (spec, h).
          let full : as_string args "id" ≢ "" = ground (arith, eq_iff (as_string args "id") "") in
          elim (Result-cases (as_map args "body")) [
            | inr (e, bad) ↦ absurd (ground (arith, bad, eq_iff (as_string args "id") ""))
            | inl (body, good) ↦ (
              inl (refl, IsText-as_string args "id" (get "id" args) refl full),
              (inr (refl, IsObject-as_map args body "body" (get "body" args) refl good), tt),
            )
          ],
      λ (given, (body, _)).
          let full : (as_string args "id" == "") ≡ false = ground (
            arith,
            eq_iff (as_string args "id") "",
            as_string-IsText args "id" (Given-IsText args "id" given),
          ) in
          (
            record {
              method = method;
              path = resource_path floats kind (as_string args "id");
              body = some (Given-IsObject args "body" body).content;
            },
            rw
                (
                  full,
                  found,
                  as_map-IsObject args "body" (Given-IsObject args "body" body),
                  write_request,
                )
                refl,
          ),
    )
