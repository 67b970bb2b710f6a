-- ===== src/Base/Text/Pieces.antt =====
-- Texts whose characters are of one kind: what trimming, cutting and splitting make of them.
use Prim.Native.Nat.{ℕ}
use Prim.Native.Char.{Char, code}
use Prim.Native.String.{String, [], ◌∷◌, ◌++◌}
use text.Mathlib.TextLemmas.{nil-append, cons-append}
use mathlib.Core.Path.{◌≡◌, refl}
use mathlib.Core.Bool.{true, false}
use mathlib.Core.Option.{some}
use mathlib.Core.List.{List}
use native.Mathlib.Omega.{arith}
use lumen_mcp_server.Base.Tests.{eqb}
use lumen_mcp_server.Base.Text.{is_space, is_empty, trim_left, trim_right, trim_space, split}
use lumen_mcp_server.Base.Cut.{cut_first, trim_left_char, trim_right_char, trim_char}

-- Every character of the text is of the kind.
abbrev pub AllChars : (ℕ → Type 0) → String → Type 0
AllChars P [] = Unit
AllChars P (c ∷ s) = P (code c) × AllChars P s

-- The character is not the given one.
abbrev pub IsNot : ℕ → ℕ → Type 0
IsNot sep c = eqb c sep ≡ false

pub AllChars-append :
    (P : ℕ → Type 0) (s t : String) → AllChars P s → AllChars P t → AllChars P (s ++ t)
AllChars-append P [] t hs ht = rw nil-append ht
AllChars-append P (c ∷ s) t (h, hs) ht = rw cons-append (h, AllChars-append P s t hs ht)

pub AllChars-map :
    (P Q : ℕ → Type 0) (s : String) → ((c : ℕ) → P c → Q c) → AllChars P s → AllChars Q s
AllChars-map P Q [] f h = tt
AllChars-map P Q (c ∷ s) f (h, hs) = (f (code c) h, AllChars-map P Q s f hs)

is_empty-append : (s : String) (c : Char) → is_empty (s ++ (c ∷ [])) ≡ false
is_empty-append [] c = rw nil-append refl
is_empty-append (d ∷ s) c = rw cons-append refl

trim_right-append :
    (s : String) (c : Char) → is_space (code c) ≡ false → trim_right (s ++ (c ∷ [])) ≡ s ++ (c ∷ [])
unfolding trim_right
trim_right-append [] c h = rw (nil-append, trim_right, h) refl
trim_right-append (d ∷ s) c h =
    rw (cons-append, trim_right, trim_right-append s c h, is_empty-append s c) (ground arith)

-- A text that begins and ends with characters that are no spaces is trimmed already.
pub trim_space-fits :
    (d : Char) (s : String) (c : Char)
    → is_space (code d) ≡ false
    → is_space (code c) ≡ false
    → trim_space (d ∷ (s ++ (c ∷ []))) ≡ d ∷ (s ++ (c ∷ []))
unfolding trim_space trim_left
trim_space-fits d s c hd hc =
    rw (trim_space, trim_left, hd) (rw cons-append at (trim_right-append (d ∷ s) c hc))

trim_right_solid : (s : String) → AllChars (λ c. is_space c ≡ false) s → trim_right s ≡ s
unfolding trim_right
trim_right_solid [] h = refl
trim_right_solid (c ∷ s) (h, hs) = rw (trim_right_solid s hs, h) refl

-- A text with no spaces is trimmed already.
pub trim_space_solid : (s : String) → AllChars (λ c. is_space c ≡ false) s → trim_space s ≡ s
unfolding trim_space trim_left
trim_space_solid [] h = trim_right_solid [] h
trim_space_solid (c ∷ s) (h, hs) = rw h (trim_right_solid (c ∷ s) (h, hs))

-- A text is cut at the first separator.
pub cut_first-append :
    (sep : ℕ) (s : String) (c : Char) (t : String)
    → AllChars (IsNot sep) s
    → eqb (code c) sep ≡ true
    → cut_first sep (s ++ (c ∷ t)) ≡ some (s, t)
unfolding cut_first
cut_first-append sep [] c t hs h = rw (nil-append, cut_first, h) refl
cut_first-append sep (d ∷ s) c t (hd, hs) h =
    rw (cons-append, cut_first, cut_first-append sep s c t hs h, hd) refl

-- A text with no separator is one piece.
pub split_whole : (sep : ℕ) (s : String) → AllChars (IsNot sep) s → split sep s ≡ List.◌∷◌ s List.[]
unfolding split
split_whole sep [] h = refl
split_whole sep (c ∷ s) (h, hs) = rw (split_whole sep s hs, h) refl

-- A text is split at the first separator.
pub split-append :
    (sep : ℕ) (s : String) (c : Char) (t : String)
    → AllChars (IsNot sep) s
    → eqb (code c) sep ≡ true
    → split sep (s ++ (c ∷ t)) ≡ List.◌∷◌ s (split sep t)
unfolding split
split-append sep [] c t hs h = rw (nil-append, split, h) refl
split-append sep (d ∷ s) c t (hd, hs) h =
    rw (cons-append, split, split-append sep s c t hs h, hd) refl

trim_right_char-append :
    (sep : ℕ) (s : String) (c : Char)
    → AllChars (IsNot sep) s
    → eqb (code c) sep ≡ true
    → trim_right_char sep (s ++ (c ∷ [])) ≡ s
unfolding trim_right_char
trim_right_char-append sep [] c hs h = rw (nil-append, trim_right_char, h) refl
trim_right_char-append sep (d ∷ s) c (hd, hs) h =
    rw (cons-append, trim_right_char, trim_right_char-append sep s c hs h, hd) refl

trim_quoted :
    (sep : ℕ) (s : String) (c : Char)
    → AllChars (IsNot sep) s
    → eqb (code c) sep ≡ true
    → trim_char sep (s ++ (c ∷ [])) ≡ s
unfolding trim_char trim_left_char trim_right_char
trim_quoted sep [] c hs h = rw (nil-append, trim_char, trim_left_char, h) refl
trim_quoted sep (d ∷ s) c (hd, hs) h =
    rw (cons-append, trim_char, trim_left_char, hd)
      (rw cons-append at (trim_right_char-append sep (d ∷ s) c (hd, hs) h))

-- A quoted text without quotes in it is trimmed to the text.
pub trim_char-quoted :
    (sep : ℕ) (s : String) (c : Char)
    → AllChars (IsNot sep) s
    → eqb (code c) sep ≡ true
    → trim_char sep (c ∷ (s ++ (c ∷ []))) ≡ s
unfolding trim_char trim_left_char
trim_char-quoted sep s c hs h = rw h (trim_quoted sep s c hs h)
