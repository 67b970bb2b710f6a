-- ===== src/Gateway/Url/Laws.antt =====
-- An escaped path segment stays one segment, and decodes to the bytes of the text.
use Prim.Native.Nat.{compare, Ordering}
use Prim.Native.Char.{Char, char, code, IsScalar}
use Prim.Native.String.{String, [], ◌∷◌}
use mathlib.Core.List
use mathlib.Core.List.{List, append-nil, append_assoc}
use native.Mathlib.Decide.{dec_lt}
use lumen_mcp_server.Base.{
  ◌-◌, ℕ, zero, suc, ◌+◌, ◌*◌, ◌/◌, ◌%◌, ◌<◌, ◌≤◌, ◌≡◌, ◌≢◌, refl, ap, sym, ◌∙◌, true, false, All,
  eqb, leb, if◌then◌else◌, arith, Bool-cases, inl, inr,
}
use lumen_mcp_server.Gateway.Url.{utf8, hex_digit, pick, percent, kept_in_path, path_escape}

-- What would end a path segment: a slash, a question mark or a number sign.
abbrev pub IsInner : ℕ → Type 0
IsInner c = (c ≢ b'/') × (c ≢ b'?') × (c ≢ b'#')

abbrev pub IsSegment : String → Type 0
IsSegment [] = Unit
IsSegment (c ∷ s) = IsInner (code c) × IsSegment s

pick-IsInner : (n : ℕ) (s : String) → IsSegment s → IsInner (code (pick n s))
unfolding pick
pick-IsInner n [] h = omega arith
pick-IsInner zero (c ∷ s) h = h.0
pick-IsInner (suc n) (c ∷ s) h = pick-IsInner n s h.1

hex_digit-IsInner : (n : ℕ) → IsInner (code (hex_digit n))
unfolding hex_digit
hex_digit-IsInner n = pick-IsInner n "0123456789ABCDEF" (omega arith)

percent-IsSegment : (bs : List ℕ) (s : String) → IsSegment s → IsSegment (percent bs s)
unfolding percent
percent-IsSegment List.[] s h = h
percent-IsSegment (List.◌∷◌ b bs) s h = (
  omega arith,
  (hex_digit-IsInner (b / 16), (hex_digit-IsInner (b % 16), percent-IsSegment bs s h)),
)

kept-IsInner : (c : ℕ) → kept_in_path c ≡ true → IsInner c
unfolding kept_in_path
kept-IsInner c h = ground arith

pub path_escape-IsSegment : (s : String) → IsSegment (path_escape s)
unfolding path_escape
path_escape-IsSegment [] = tt
path_escape-IsSegment (c ∷ s) = elim (Bool-cases (kept_in_path (code c))) [
  | inl kept ↦ rw kept (kept-IsInner (code c) kept, path_escape-IsSegment s)
  | inr other ↦
      rw other (percent-IsSegment (utf8 (code c)) (path_escape s) (path_escape-IsSegment s))
]

-- The value of a hexadecimal digit, as a decoder reads it.
unfoldable pub hex_value : ℕ → ℕ
hex_value c = if leb c b'9' then c - 48 else c - 55

-- The bytes that a decoder reads off a path segment.
unfoldable pub decode : String → List ℕ
decode [] = List.[]
decode (c ∷ []) = utf8 (code c)
decode (c ∷ h ∷ []) = List.◌++◌ (utf8 (code c)) (utf8 (code h))
decode (c ∷ h ∷ l ∷ s) =
    let skip = decode s in
    let plain = decode (h ∷ l ∷ s) in
    if eqb (code c) b'%'
    then List.◌∷◌ (hex_value (code h) * 16 + hex_value (code l)) skip
    else List.◌++◌ (utf8 (code c)) plain

-- The UTF-8 bytes of a text.
unfoldable pub bytes : String → List ℕ
bytes [] = List.[]
bytes (c ∷ s) = List.◌++◌ (utf8 (code c)) (bytes s)

decode-cons :
    (c : Char) (s : String) → code c ≢ b'%' → decode (c ∷ s) ≡ List.◌++◌ (utf8 (code c)) (decode s)
unfolding decode
decode-cons c [] h = sym (append-nil (utf8 (code c)))
decode-cons c (d ∷ []) h = refl
decode-cons c (d ∷ e ∷ s) h = ground arith

-- The numbers below a bound all have a property.
abbrev Below : ℕ → (ℕ → Type 0) → Type 0
Below zero P = Unit
Below (suc n) P = P n × Below n P

Below-at : (P : ℕ → Type 0) (bound n : ℕ) → Below bound P → n < bound → P n
Below-at P zero n all h = absurd (omega arith)
Below-at P (suc b) n all h = elim (dec_lt n b) [
  | yes lower ↦ Below-at P b n all.1 lower
  | no top ↦ let same : n ≡ b = omega arith in rw same all.0
]

abbrev ReadsBack : ℕ → Type 0
ReadsBack n = hex_value (code (hex_digit n)) ≡ n

sixteen-ReadsBack : Below 16 ReadsBack
unfolding hex_value hex_digit
sixteen-ReadsBack = omega arith

hex_value-hex_digit : (n : ℕ) → n < 16 → hex_value (code (hex_digit n)) ≡ n
hex_value-hex_digit n h = Below-at ReadsBack 16 n sixteen-ReadsBack h

decode-percent :
    (bs : List ℕ) (s : String)
    → All (λ b. b < 256) bs
    → decode (percent bs s) ≡ List.◌++◌ bs (decode s)
unfolding percent decode
decode-percent List.[] s h = refl
decode-percent (List.◌∷◌ b bs) s h = ground (
  arith,
  hex_value-hex_digit (b / 16) (omega arith),
  hex_value-hex_digit (b % 16) (omega arith),
  decode-percent bs s h.1,
)

not_scalar : (n : ℕ) → 0x110000 ≤ n → IsScalar n → ⊥
not_scalar n far p =
    let above : compare n 55296 ≡ Ordering.gt = ground arith in
    let past : compare 57343 n ≡ Ordering.lt = ground arith in
    elim (dec_lt 1114112 n) [
      | yes more ↦
          let end : compare n 1114112 ≡ Ordering.gt = ground arith in rw (above, past, end) at p
      | no fewer ↦
          let end : compare n 1114112 ≡ Ordering.eq = ground arith in rw (above, past, end) at p
    ]

below_end : (n : ℕ) → IsScalar n → n < 0x110000
below_end n p = elim (dec_lt n 0x110000) [
  | yes h ↦ h
  | no far ↦ absurd (not_scalar n (omega arith) p)
]

code_bound : (c : Char) → code c < 0x110000
code_bound (char n p) = below_end n p

utf8-bytes : (c : ℕ) → c < 0x110000 → All (λ b. b < 256) (utf8 c)
unfolding utf8
utf8-bytes c h = ground arith

kept-utf8 : (c : ℕ) → kept_in_path c ≡ true → c ≢ b'%'
unfolding kept_in_path
kept-utf8 c h = ground arith

path_escape-kept :
    (c : Char) (s : String) → kept_in_path (code c) ≡ true → path_escape (c ∷ s) ≡ c ∷ path_escape s
unfolding path_escape
path_escape-kept c s kept = rw kept

path_escape-other :
    (c : Char) (s : String)
    → kept_in_path (code c) ≡ false
    → path_escape (c ∷ s) ≡ percent (utf8 (code c)) (path_escape s)
unfolding path_escape
path_escape-other c s other = rw other

-- Decoding an escaped path segment gives the UTF-8 bytes of the text.
pub decode-path_escape : (s : String) → decode (path_escape s) ≡ bytes s
unfolding bytes
decode-path_escape [] = unfold path_escape decode in refl
decode-path_escape (c ∷ s) =
    let rest = ap (List.◌++◌ (utf8 (code c))) (decode-path_escape s) in
    elim (Bool-cases (kept_in_path (code c))) [
      | inl kept ↦
          ap decode (path_escape-kept c s kept)
          ∙ decode-cons c (path_escape s) (kept-utf8 (code c) kept)
          ∙ rest
      | inr other ↦
          ap decode (path_escape-other c s other)
          ∙ decode-percent (utf8 (code c)) (path_escape s) (utf8-bytes (code c) (code_bound c))
          ∙ rest
    ]
