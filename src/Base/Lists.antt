-- ===== src/Base/Lists.antt =====
-- Lists over the native numbers, list predicates by recursion, and Go maps with text keys.
use Prim.Native.Nat.{ℕ, zero, suc, ◌+◌, ◌-◌, ◌≤◌}
use Prim.Native.String.{String}
use mathlib.Core.Path.{◌≡◌, refl, sym, ap, ◌∙◌, ◌≡⟨◌⟩◌, ◌∎}
use mathlib.Core.Logic.{◌⊎◌}
use mathlib.Core.Bool.{Bool, false, ◌||◌}
use mathlib.Core.Option.{Option, none, some}
use mathlib.Core.List.{List, [], ◌∷◌, ◌++◌, reverse, reverse-cons, reverse-append}
use native.Mathlib.Omega.{arith}
use native.Mathlib.Decide.{dec_le}
use text.Mathlib.Text.{◌==◌}
use lumen_mcp_server.Base.Tests.{if◌then◌else◌}

module _ {ℓ} {A : Type ℓ} where
  abbrev pub length : List A → ℕ
  length [] = 0
  length (x ∷ xs) = suc (length xs)

  abbrev pub get_elem? : List A → ℕ → Option A
  get_elem? [] i = none
  get_elem? (x ∷ xs) zero = some x
  get_elem? (x ∷ xs) (suc i) = get_elem? xs i

  abbrev pub take : ℕ → List A → List A
  take zero xs = []
  take (suc n) [] = []
  take (suc n) (x ∷ xs) = x ∷ take n xs

  abbrev pub drop : ℕ → List A → List A
  drop zero xs = xs
  drop (suc n) [] = []
  drop (suc n) (x ∷ xs) = drop n xs

  abbrev pub any : (A → Bool) → List A → Bool
  any p [] = false
  any p (x ∷ xs) = p x || any p xs

  pub length-append : (xs ys : List A) → length (xs ++ ys) ≡ length xs + length ys
  length-append [] ys = omega arith
  length-append (x ∷ xs) ys = omega (arith, length-append xs ys)

module _ {ℓ κ} {A : Type ℓ} (P : A → Type κ) where
  abbrev pub All : List A → Type κ
  All [] = Unit
  All (x ∷ xs) = P x × All xs

module _ {ℓ} {A : Type ℓ} (P : A → Type 0) where
  abbrev pub Any : List A → Type 0
  Any [] = ⊥
  Any (x ∷ xs) = P x ⊎ Any xs

-- A Go map with text keys, as its entries: an assignment leaves one entry of its key.
module _ {ℓ} {V : Type ℓ} where
  unfoldable pub lookup : String → List (String × V) → Option V
  lookup key [] = none
  lookup key ((k, v) ∷ entries) = if k == key then some v else lookup key entries

  -- `delete(m, key)`
  unfoldable pub unset : String → List (String × V) → List (String × V)
  unset key [] = []
  unset key (entry ∷ entries) =
      let others = unset key entries in if entry.0 == key then others else entry ∷ others

  -- `m[key] = v`
  unfoldable pub assign : String → V → List (String × V) → List (String × V)
  unfolding unset
  assign key v entries = (key, v) ∷ unset key entries

module _ {ℓ} {A : Type ℓ} where
  pub length-reverse : (xs : List A) → length (reverse xs) ≡ length xs
  length-reverse [] = refl
  length-reverse (x ∷ xs) =
      rw (reverse-cons, length-append (reverse xs) (x ∷ [])) (omega (arith, length-reverse xs))

  pub length-drop : (k : ℕ) (xs : List A) → length (drop k xs) ≡ length xs - k
  length-drop zero xs = omega arith
  length-drop (suc k) [] = omega arith
  length-drop (suc k) (x ∷ xs) = omega (arith, length-drop k xs)

  pub take-append-drop : (k : ℕ) (xs : List A) → take k xs ++ drop k xs ≡ xs
  take-append-drop zero xs = refl
  take-append-drop (suc k) [] = refl
  take-append-drop (suc k) (x ∷ xs) = rw (take-append-drop k xs)

  pub take-append : (xs ys : List A) → take (length xs) (xs ++ ys) ≡ xs
  take-append [] ys = refl
  take-append (x ∷ xs) ys = rw (take-append xs ys)

  pub drop-append : (k : ℕ) (xs ys : List A) → k ≤ length xs → drop k (xs ++ ys) ≡ drop k xs ++ ys
  drop-append zero xs ys h = refl
  drop-append (suc k) [] ys h = absurd (omega arith)
  drop-append (suc k) (x ∷ xs) ys h = drop-append k xs ys (omega arith)

  pub drop_all : (k : ℕ) (xs : List A) → length xs ≤ k → drop k xs ≡ []
  drop_all zero [] h = refl
  drop_all zero (x ∷ xs) h = absurd (omega arith)
  drop_all (suc k) [] h = refl
  drop_all (suc k) (x ∷ xs) h = drop_all k xs (omega arith)

  take-reverse_fits :
      (k : ℕ) (xs : List A)
      → k ≤ length xs
      → take k (reverse xs) ≡ reverse (drop (length xs - k) xs)
  take-reverse_fits k xs h =
      let n : ℕ = length xs - k in
      let size : length (reverse (drop n xs)) ≡ k =
        length-reverse (drop n xs) ∙ length-drop n xs ∙ omega arith in
      take k (reverse xs)
      ≡⟨ ap (λ l. take k (reverse l)) (sym (take-append-drop n xs)) ⟩
        take k (reverse (take n xs ++ drop n xs))
      ≡⟨ ap (take k) (reverse-append (take n xs) (drop n xs)) ⟩
        take k (reverse (drop n xs) ++ reverse (take n xs))
      ≡⟨ ap (λ j. take j (reverse (drop n xs) ++ reverse (take n xs))) (sym size) ⟩
        take (length (reverse (drop n xs))) (reverse (drop n xs) ++ reverse (take n xs))
      ≡⟨ take-append (reverse (drop n xs)) (reverse (take n xs)) ⟩ reverse (drop n xs) ∎

  take_all : (k : ℕ) (xs : List A) → length xs ≤ k → take k xs ≡ xs
  take_all zero [] h = refl
  take_all zero (x ∷ xs) h = absurd (omega arith)
  take_all (suc k) [] h = refl
  take_all (suc k) (x ∷ xs) h = rw (take_all k xs (omega arith))

  -- The first entries of a reversed list are its last ones, reversed.
  pub take-reverse : (k : ℕ) (xs : List A) → take k (reverse xs) ≡ reverse (drop (length xs - k) xs)
  take-reverse k xs = elim (dec_le k (length xs)) [
    | yes fits ↦ take-reverse_fits k xs fits
    | no past ↦
        let start : length xs - k ≡ 0 = omega arith in
        take_all k (reverse xs) (omega (arith, length-reverse xs))
        ∙ ap (λ j. reverse (drop j xs)) (sym start)
  ]
