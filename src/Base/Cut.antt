-- ===== src/Base/Cut.antt =====
-- Cutting a text at a character, as Go's `strings.Index`, `strings.LastIndex` and `strings.SplitN`
-- with two parts do for a separator of one ASCII character, and `strings.Trim` by one character.
use Prim.Native.Nat.{ℕ}
use Prim.Native.Char.{Char, code}
use Prim.Native.String.{String, [], ◌∷◌}
use mathlib.Core.Bool.{Bool, ◌&&◌}
use mathlib.Core.Option.{Option, none, some}
use lumen_mcp_server.Base.Tests.{eqb, if◌then◌else◌}
use lumen_mcp_server.Base.Text.{is_empty}

abbrev pub onto_front : Char → Option (String × String) → Option (String × String)
onto_front c none = none
onto_front c (some (before, after)) = some (c ∷ before, after)

-- what stands before the first separator, and behind it
unfoldable pub cut_first : ℕ → String → Option (String × String)
cut_first sep [] = none
cut_first sep (c ∷ s) =
    let rest = cut_first sep s in if eqb (code c) sep then some ([], s) else onto_front c rest

abbrev pub or_here : Bool → String → Option (String × String) → Option (String × String)
or_here here s (some cut) = some cut
or_here here s none = if here then some ([], s) else none

-- what stands before the last separator, and behind it
unfoldable pub cut_last : ℕ → String → Option (String × String)
cut_last sep [] = none
cut_last sep (c ∷ s) = or_here (eqb (code c) sep) s (onto_front c (cut_last sep s))

unfoldable pub trim_left_char : ℕ → String → String
trim_left_char c [] = []
trim_left_char c (d ∷ s) = let rest = trim_left_char c s in if eqb (code d) c then rest else d ∷ s

unfoldable pub trim_right_char : ℕ → String → String
trim_right_char c [] = []
trim_right_char c (d ∷ s) =
    let rest = trim_right_char c s in if eqb (code d) c && is_empty rest then [] else d ∷ rest

-- strings.Trim(s, c)
unfoldable pub trim_char : ℕ → String → String
unfolding trim_left_char trim_right_char
trim_char c s = trim_right_char c (trim_left_char c s)
