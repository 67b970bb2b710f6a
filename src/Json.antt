-- ===== src/Json.antt =====
-- Go's dynamically typed values (`any`), as the JSON package makes them and the code builds them. The
-- type of float64 values and what Go does with them are parameters.
use lumen_mcp_server.Base.{String, Bool, Option, none, some, List, [], ◌∷◌, ℤ, if◌then◌else◌, ◌==◌}

mutual
  pub data Value (F : Type 0) : Type 0 where
    null : Value F
    bool : Bool → Value F
    int int64 : ℤ → Value F
    float64 float32 : F → Value F
    number : String → Value F
    str : String → Value F
    arr : Items F → Value F
    obj : Fields F → Value F

  pub data Items (F : Type 0) : Type 0 where
    nil : Items F
    cons : Value F → Items F → Items F

  -- `map[string]any`; the first entry of a key is its value
  pub data Fields (F : Type 0) : Type 0 where
    end : Fields F
    field : String → Value F → Fields F → Fields F

-- What Go does with float64 values: `int(f)`, `float64(i)`, and `strconv.ParseFloat`.
pub record Numbers (F : Type 0) : Type 0 where
  pub truncate : F → ℤ
  pub of_int : ℤ → F
  pub parse_float : String → Option F

module _ {F : Type 0} where
  -- `m[key]`
  unfoldable pub get : String → Fields F → Option (Value F)
  get key end = none
  get key (field k v m) = if k == key then some v else get key m

  -- `m[key] = v`
  unfoldable pub put : String → Value F → Fields F → Fields F
  put key v end = field key v end
  put key v (field k w m) = if k == key then field key v m else field k w (put key v m)

  unfoldable pub items : Items F → List (Value F)
  items nil = []
  items (cons v vs) = v ∷ items vs
