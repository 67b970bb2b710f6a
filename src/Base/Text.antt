-- ===== src/Base/Text.antt =====
-- The functions of Go's `strings` package that the code calls, on texts of Unicode code points.
-- Lower case covers every character whose lower form is ASCII, which is what is compared with an ASCII
-- text.
pub mod Pieces
use Prim.Native.Nat.{ℕ, ◌+◌}
use Prim.Native.Char.{Char, code}
use Prim.Native.String
use Prim.Native.String.{String, [], ◌∷◌}
use mathlib.Core.Bool.{Bool, true, false, ◌&&◌, ◌||◌}
use mathlib.Core.List.{List}
use lumen_mcp_server.Base.Tests.{leb, eqb, if◌then◌else◌}
use lumen_mcp_server.Base.Folding.{fold_beyond}

-- unicode.IsSpace
unfoldable pub is_space : ℕ → Bool
is_space c =
    (leb 9 c && leb c 13)
    || eqb c 32
    || eqb c 0x85
    || eqb c 0xa0
    || eqb c 0x1680
    || (leb 0x2000 c && leb c 0x200a)
    || eqb c 0x2028
    || eqb c 0x2029
    || eqb c 0x202f
    || eqb c 0x205f
    || eqb c 0x3000

-- one code point for each folding orbit: strings.EqualFold compares these
unfoldable pub fold : ℕ → ℕ
unfolding fold_beyond
fold c = elim (leb c 127) [
  | true ↦ if leb b'A' c && leb c b'Z' then c + 32 else c
  | false ↦ fold_beyond c
]

-- unicode.ToLower, where the result is ASCII
unfoldable pub lower : ℕ → ℕ
lower c =
    if leb b'A' c && leb c b'Z'
    then c + 32
    else if eqb c 0x130
    then b'i'
    else if eqb c 0x212a
    then b'k'
    else c

abbrev pub is_empty : String → Bool
is_empty [] = true
is_empty (c ∷ s) = false

-- strings.EqualFold
unfoldable pub equal_fold : String → String → Bool
unfolding fold
equal_fold [] [] = true
equal_fold [] (d ∷ t) = false
equal_fold (c ∷ s) [] = false
equal_fold (c ∷ s) (d ∷ t) = eqb (fold (code c)) (fold (code d)) && equal_fold s t

-- strings.ToLower(s) == t
unfoldable pub lower_eq : String → String → Bool
unfolding lower
lower_eq [] [] = true
lower_eq [] (d ∷ t) = false
lower_eq (c ∷ s) [] = false
lower_eq (c ∷ s) (d ∷ t) = eqb (lower (code c)) (code d) && lower_eq s t

trim_left : String → String
trim_left [] = []
trim_left (c ∷ s) = let rest = trim_left s in if is_space (code c) then rest else c ∷ s

trim_right : String → String
trim_right [] = []
trim_right (c ∷ s) =
    let rest = trim_right s in if is_space (code c) && is_empty rest then [] else c ∷ rest

-- strings.TrimSpace
unfoldable pub trim_space : String → String
unfolding trim_left trim_right is_space
trim_space s = trim_right (trim_left s)

-- strings.TrimRight(s, "/")
unfoldable pub trim_slashes : String → String
trim_slashes [] = []
trim_slashes (c ∷ s) =
    let rest = trim_slashes s in if eqb (code c) b'/' && is_empty rest then [] else c ∷ rest

-- strings.HasPrefix
unfoldable pub has_prefix : String → String → Bool
has_prefix s [] = true
has_prefix [] (d ∷ t) = false
has_prefix (c ∷ s) (d ∷ t) = eqb (code c) (code d) && has_prefix s t

-- the text behind a prefix of the given text's length
drop_as : String → String → String
drop_as s [] = s
drop_as [] (d ∷ t) = []
drop_as (c ∷ s) (d ∷ t) = drop_as s t

-- strings.TrimPrefix
unfoldable pub trim_prefix : String → String → String
unfolding has_prefix drop_as
trim_prefix s t = if has_prefix s t then drop_as s t else s

-- strings.Contains
unfoldable pub contains : String → String → Bool
unfolding has_prefix
contains [] t = has_prefix [] t
contains (c ∷ s) t = has_prefix (c ∷ s) t || contains s t

cons_head : Char → List String → List String
cons_head c List.[] = List.◌∷◌ (c ∷ []) List.[]
cons_head c (List.◌∷◌ w ws) = List.◌∷◌ (c ∷ w) ws

-- strings.Split(s, sep) for a separator of one ASCII character
unfoldable pub split : ℕ → String → List String
unfolding cons_head
split sep [] = List.◌∷◌ [] List.[]
split sep (c ∷ s) =
    let rest = split sep s in if eqb (code c) sep then List.◌∷◌ [] rest else cons_head c rest

close_word : String → List String → List String
close_word [] ws = ws
close_word (c ∷ w) ws = List.◌∷◌ (c ∷ w) ws

-- the word that begins a text, and the words behind it
words_from : String → String × List String
words_from [] = ([], List.[])
words_from (c ∷ s) =
    let (w, ws) = words_from s in if is_space (code c) then ([], close_word w ws) else (c ∷ w, ws)

-- strings.Fields
unfoldable pub fields : String → List String
unfolding words_from close_word is_space
fields s = let (w, ws) = words_from s in close_word w ws

-- strings.Join
unfoldable pub join : String → List String → String
join sep List.[] = []
join sep (List.◌∷◌ w List.[]) = w
join sep (List.◌∷◌ w (List.◌∷◌ v ws)) = String.◌++◌ w (String.◌++◌ sep (join sep (List.◌∷◌ v ws)))
