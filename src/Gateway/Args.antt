-- ===== src/Gateway/Args.antt =====
-- internal/infrastructure/gatewayclient/http_client.go and latency_tools.go: reading a tool's
-- arguments, which may be missing or of any type.
use lumen_mcp_server.Base.{
  String, Bool, Option, none, some, List, [], ◌∷◌, ℤ, Result, ok, err, if◌then◌else◌, ◌==◌, ◌||◌,
  trim_space, atoi, lower_eq, true, false,
}
use lumen_mcp_server.Json.{
  Value, null, bool, int, int64, float64, float32, number, str, arr, obj, Fields, Numbers, get,
  items,
}

-- an absent key and a null are treated alike
present : {F : Type 0} → Option (Value F) → Option (Value F)
present none = none
present (some null) = none
present (some v) = some v

object_of : {F : Type 0} → Option (Value F) → Result String (Fields F)
object_of none = err "missing key"
object_of (some (obj m)) = ok m
object_of (some v) = err "not object"

unfoldable pub as_map : {F : Type 0} → Fields F → String → Result String (Fields F)
unfolding present object_of
as_map args key = object_of (present (get key args))

text_of : {F : Type 0} → Option (Value F) → String
text_of (some (str s)) = trim_space s
text_of _ = ""

unfoldable pub as_string : {F : Type 0} → Fields F → String → String
unfolding text_of
as_string args key = text_of (get key args)

-- the loop of `asStringSlice`
texts_in : {F : Type 0} → List (Value F) → List String
texts_in [] = []
texts_in (str s ∷ vs) =
    let rest = texts_in vs in if trim_space s == "" then rest else trim_space s ∷ rest
texts_in (v ∷ vs) = texts_in vs

slice_of : {F : Type 0} → Option (Value F) → List String
unfolding texts_in
slice_of (some (arr vs)) = texts_in (items vs)
slice_of _ = []

unfoldable pub as_string_slice : {F : Type 0} → Fields F → String → List String
unfolding slice_of
as_string_slice args key = slice_of (get key args)

or_else {ℓ} : {A : Type ℓ} → A → Option A → A
or_else fallback none = fallback
or_else fallback (some a) = a

-- `switch strings.ToLower(strings.TrimSpace(b))`
truth : String → Option Bool
truth s =
    if lower_eq s "true" || lower_eq s "1" || lower_eq s "yes" || lower_eq s "y"
    then some true
    else if lower_eq s "false" || lower_eq s "0" || lower_eq s "no" || lower_eq s "n"
    then some false
    else none

truth_of : {F : Type 0} → Option (Value F) → Option Bool
truth_of (some (bool b)) = some b
truth_of (some (str s)) = truth (trim_space s)
truth_of _ = none

unfoldable pub as_bool : {F : Type 0} → Fields F → String → Bool → Bool
unfolding truth_of or_else truth
as_bool args key fallback = or_else fallback (truth_of (get key args))

module _ {F : Type 0} (floats : Numbers F) where
  integer_of : Option (Value F) → Option ℤ
  integer_of (some (int n)) = some n
  integer_of (some (int64 n)) = some n
  integer_of (some (float64 f)) = some (floats.truncate f)
  integer_of (some (number s)) = atoi s
  integer_of (some (str s)) = atoi (trim_space s)
  integer_of _ = none

  unfoldable pub as_int : Fields F → String → ℤ → ℤ
  unfolding integer_of or_else
  as_int args key fallback = or_else fallback (integer_of (get key args))

  float_of : Option (Value F) → Option F
  float_of (some (float64 f)) = some f
  float_of (some (float32 f)) = some f
  float_of (some (int n)) = some (floats.of_int n)
  float_of (some (int64 n)) = some (floats.of_int n)
  float_of (some (number s)) = floats.parse_float s
  float_of (some (str s)) = floats.parse_float (trim_space s)
  float_of _ = none

  unfoldable pub as_float : Fields F → String → F → F
  unfolding float_of or_else
  as_float args key fallback = or_else fallback (float_of (get key args))

-- `asNumber`: the value as it stands
unfoldable pub as_number : {F : Type 0} → Fields F → String → Value F
unfolding or_else
as_number m key = or_else null (get key m)
