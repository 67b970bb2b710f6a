-- ===== src/Verifier/Keys.antt =====
-- The keys that are read from the key server's answer.
use lumen_mcp_server.Base.{
  refl, ℕ, suc, String, ◌≡◌, ◌≢◌, true, Option, none, some, List, [], ◌∷◌, All, Any, inl, inr,
  Bool-cases, equal_fold, assign, unset, ◌==◌,
}
use lumen_mcp_server.Verifier.{Bytes, JwkKey, Codec, key_id, add_key, collect_keys}

-- A key that can sign: its bytes are the decoded text of an `oct` key of the answer, and not empty.
pub record IsFrom {F : Type 0} (codec : Codec F) (ks : List JwkKey) (entry : String × Bytes)
    : Type 0 where
  pub source : JwkKey
  pub listed : Any (λ k. source ≡ k) ks
  pub symmetric : equal_fold source.kty "oct" ≡ true
  pub decoded : codec.decode_base64 source.k ≡ some entry.1
  pub full : entry.1 ≢ []

unset-All :
    (P : String × Bytes → Type 0) (key : String) (m : List (String × Bytes))
    → All P m
    → All P (unset key m)
unfolding unset
unset-All P key [] all = tt
unset-All P key (e ∷ m) (p, all) = elim (Bool-cases (e.0 == key)) [
  | inl same ↦ rw same (unset-All P key m all)
  | inr other ↦ rw other (p, unset-All P key m all)
]

-- The keys of an answer stand in it.
abbrev Listed : List JwkKey → List JwkKey → Type 0
Listed all ks = All (λ k. Any (λ x. k ≡ x) all) ks

Listed-cons : (y : JwkKey) (all ks : List JwkKey) → Listed all ks → Listed (y ∷ all) ks
Listed-cons y all [] h = tt
Listed-cons y all (k ∷ ks) (m, h) = (inr m, Listed-cons y all ks h)

Listed-self : (ks : List JwkKey) → Listed ks ks
Listed-self [] = tt
Listed-self (k ∷ ks) = (inl refl, Listed-cons k ks ks (Listed-self ks))

module _ {F : Type 0} (codec : Codec F) (all : List JwkKey) where
  add_key-IsFrom :
      (i : ℕ) (k : JwkKey) (keys : List (String × Bytes)) (o : Option Bytes)
      → codec.decode_base64 k.k ≡ o
      → Any (λ x. k ≡ x) all
      → All (IsFrom codec all) keys
      → All (IsFrom codec all) (add_key codec i k o keys)
  unfolding add_key assign
  add_key-IsFrom i k keys none e member old = old
  add_key-IsFrom i k keys (some []) e member old = old
  add_key-IsFrom i k keys (some (b ∷ raw)) e member old =
      elim (Bool-cases (equal_fold k.kty "oct")) [
        | inl oct ↦ rw oct (
          record { source = k; listed = member; symmetric = oct; decoded = e; full = λ p. cc p },
          unset-All (IsFrom codec all) (key_id codec i k) keys old,
        )
        | inr other ↦ rw other old
      ]

  collect_keys-IsFrom :
      (i : ℕ) (ks : List JwkKey) (keys : List (String × Bytes))
      → Listed all ks
      → All (IsFrom codec all) keys
      → All (IsFrom codec all) (collect_keys codec i ks keys)
  unfolding collect_keys
  collect_keys-IsFrom i [] keys listed old = old
  collect_keys-IsFrom i (k ∷ ks) keys (m, listed) old =
      collect_keys-IsFrom (suc i) ks (add_key codec i k (codec.decode_base64 k.k) keys) listed
        (add_key-IsFrom i k keys (codec.decode_base64 k.k) refl m old)

-- Every key that is taken from an answer is one of its `oct` keys, decoded and not empty.
pub collected-IsFrom :
    {F : Type 0} (codec : Codec F) (ks : List JwkKey)
    → All (IsFrom codec ks) (collect_keys codec 0 ks [])
collected-IsFrom codec ks = collect_keys-IsFrom codec ks 0 ks [] (Listed-self ks) tt
