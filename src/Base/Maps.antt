-- ===== src/Base/Maps.antt =====
-- What a Go map holds after an assignment.
use Prim.Native.String.{String}
use mathlib.Core.Path.{◌≡◌, refl}
use mathlib.Core.Bool.{false}
use mathlib.Core.Option.{some}
use mathlib.Core.List.{List, [], ◌∷◌}
use native.Mathlib.Omega.{arith}
use text.Mathlib.Text.{◌==◌}
use text.Mathlib.TextEquality.{eq_iff}
use lumen_mcp_server.Base.Lists.{lookup, unset, assign}

module _ {V : Type 0} where
  lookup-unset :
      (key other : String) (w : List (String × V))
      → (other == key) ≡ false
      → lookup key (unset other w) ≡ lookup key w
  unfolding lookup unset
  lookup-unset key other [] h = refl
  lookup-unset key other ((k, v) ∷ w) h =
      ground (arith, lookup-unset key other w h, eq_iff k other, eq_iff k key, eq_iff other key)

  pub lookup-assign_other :
      (key other : String) (value : V) (w : List (String × V))
      → (other == key) ≡ false
      → lookup key (assign other value w) ≡ lookup key w
  unfolding lookup assign
  lookup-assign_other key other value w h = rw h (lookup-unset key other w h)

  pub lookup-assign_same :
      (key : String) (value : V) (w : List (String × V))
      → lookup key (assign key value w) ≡ some value
  unfolding lookup assign
  lookup-assign_same key value w = rw ((eq_iff key key).1 refl) refl
