-- ===== src/Gateway/Url.antt =====
-- What the gateway client uses of Go's `net/url`: escaping of a path segment, and query values.
pub mod Laws
use Prim.Native.Nat.{Ordering}
use Prim.Native.Char.{Char, code}
use Prim.Native.String
use Prim.Native.String.{String, [], ◌∷◌}
use mathlib.Core.List
use mathlib.Core.List.{List}
use lumen_mcp_server.Base.{
  ℕ, zero, suc, ◌+◌, ◌/◌, ◌%◌, Bool, true, false, ◌&&◌, ◌||◌, ltb, leb, eqb, if◌then◌else◌, ◌==◌,
}

-- The UTF-8 bytes of a code point.
unfoldable pub utf8 : ℕ → List ℕ
utf8 c =
    if ltb c 0x80
    then List.◌∷◌ c List.[]
    else if ltb c 0x800
    then List.◌∷◌ (0xc0 + c / 0x40) (List.◌∷◌ (0x80 + c % 0x40) List.[])
    else if ltb c 0x10000
    then List.◌∷◌ (0xe0 + c / 0x1000)
        (List.◌∷◌ (0x80 + c / 0x40 % 0x40) (List.◌∷◌ (0x80 + c % 0x40) List.[]))
    else List.◌∷◌ (0xf0 + c / 0x40000) (
        List.◌∷◌ (0x80 + c / 0x1000 % 0x40)
          (List.◌∷◌ (0x80 + c / 0x40 % 0x40) (List.◌∷◌ (0x80 + c % 0x40) List.[])))

pick : ℕ → String → Char
pick n [] = "0"
pick zero (c ∷ s) = c
pick (suc n) (c ∷ s) = pick n s

unfoldable pub hex_digit : ℕ → Char
unfolding pick
hex_digit n = pick n "0123456789ABCDEF"

-- `%XX` for each byte, in front of a text
percent : List ℕ → String → String
percent List.[] out = out
percent (List.◌∷◌ b bs) out = "%" ∷ hex_digit (b / 16) ∷ hex_digit (b % 16) ∷ percent bs out

-- A–Z a–z 0–9 - _ . ~
unfoldable pub unreserved : ℕ → Bool
unreserved c =
    (leb b'a' c && leb c b'z')
    || (leb b'A' c && leb c b'Z')
    || (leb b'0' c && leb c b'9')
    || eqb c b'-'
    || eqb c b'_'
    || eqb c b'.'
    || eqb c b'~'

-- what a path segment keeps besides: $ & + = : @
unfoldable pub kept_in_path : ℕ → Bool
unfolding unreserved
kept_in_path c =
    unreserved c || eqb c b'$' || eqb c b'&' || eqb c b'+' || eqb c b'=' || eqb c b':' || eqb c b'@'

-- url.PathEscape
unfoldable pub path_escape : String → String
unfolding percent
path_escape [] = []
path_escape (c ∷ s) =
    let rest = path_escape s in
    if kept_in_path (code c) then c ∷ rest else percent (utf8 (code c)) rest

-- url.QueryEscape
unfoldable pub query_escape : String → String
unfolding percent
query_escape [] = []
query_escape (c ∷ s) =
    let rest = query_escape s in
    if unreserved (code c)
    then c ∷ rest
    else if eqb (code c) b' '
    then "+" ∷ rest
    else percent (utf8 (code c)) rest

-- url.Values: the pairs, those of one key in the order in which they were added
abbrev pub Values : Type 0
Values = List (String × String)

without : String → Values → Values
without key List.[] = List.[]
without key (List.◌∷◌ (k, v) q) =
    let rest = without key q in if k == key then rest else List.◌∷◌ (k, v) rest

-- q.Add
unfoldable pub add_value : String → String → Values → Values
add_value key v q = List.◌++◌ q (List.◌∷◌ (key, v) List.[])

-- q.Set
unfoldable pub set_value : String → String → Values → Values
unfolding without add_value
set_value key v q = add_value key v (without key q)

-- k <= j, in the order of `sort.Strings`: by code points, which is by bytes
abbrev at_most : String → String → Bool
at_most k j = elim (String.compare k j) [ Ordering.gt ↦ false | _ ↦ true ]

place : String × String → Values → Values
place p List.[] = List.◌∷◌ p List.[]
place (k, v) (List.◌∷◌ (j, w) q) =
    let later = List.◌∷◌ (j, w) (place (k, v) q) in
    if at_most k j then List.◌∷◌ (k, v) (List.◌∷◌ (j, w) q) else later

-- the pairs in the order of their keys; those of one key keep their order
sorted : Values → Values
sorted List.[] = List.[]
sorted (List.◌∷◌ p q) = place p (sorted q)

-- `k=v&k=v`
write_pairs : Values → String
write_pairs List.[] = ""
write_pairs (List.◌∷◌ (k, v) List.[]) =
    String.◌++◌ (query_escape k) (String.◌++◌ "=" (query_escape v))
write_pairs (List.◌∷◌ (k, v) (List.◌∷◌ p q)) =
    String.◌++◌ (query_escape k) (
      String.◌++◌ "=" (String.◌++◌ (query_escape v) (String.◌++◌ "&" (write_pairs (List.◌∷◌ p q)))))

-- q.Encode
unfoldable pub encode : Values → String
unfolding place sorted write_pairs
encode q = write_pairs (sorted q)
