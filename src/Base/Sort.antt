-- ===== src/Base/Sort.antt =====
-- Go's `sort.Float64s` and `sort.Slice`, as insertion into a sorted list. `before` is the order; items
-- that it does not tell apart keep their order.
use mathlib.Core.Path.{◌≡◌}
use mathlib.Core.Logic.{◌⊎◌, inl, inr}
use mathlib.Core.Bool.{Bool, true, false}
use mathlib.Core.List.{List, [], ◌∷◌}
use lumen_mcp_server.Base.Tests.{if◌then◌else◌, Bool-cases}
use lumen_mcp_server.Base.Lists.{All, Any}

module _ {A : Type 0} (before : A → A → Bool) where
  unfoldable pub insert_by : A → List A → List A
  insert_by x [] = x ∷ []
  insert_by x (y ∷ ys) = let rest = insert_by x ys in if before y x then y ∷ rest else x ∷ y ∷ ys

  unfoldable pub sort_by : List A → List A
  unfolding insert_by
  sort_by [] = []
  sort_by (x ∷ xs) = insert_by x (sort_by xs)

  insert_by-All : (P : A → Type 0) (x : A) (ys : List A) → P x → All P ys → All P (insert_by x ys)
  unfolding insert_by
  insert_by-All P x [] p all = (p, tt)
  insert_by-All P x (y ∷ ys) p (q, all) = elim (Bool-cases (before y x)) [
    | inl later ↦ rw later (q, insert_by-All P x ys p all)
    | inr here ↦ rw here (p, (q, all))
  ]

  -- What holds of every item holds of every sorted item.
  pub sort_by-All : (P : A → Type 0) (xs : List A) → All P xs → All P (sort_by xs)
  unfolding sort_by
  sort_by-All P [] all = tt
  sort_by-All P (x ∷ xs) (p, all) = insert_by-All P x (sort_by xs) p (sort_by-All P xs all)

  insert_by-Any : (P : A → Type 0) (x : A) (ys : List A) → P x ⊎ Any P ys → Any P (insert_by x ys)
  unfolding insert_by
  insert_by-Any P x [] (inl p) = inl p
  insert_by-Any P x [] (inr h) = elim h [ ]
  insert_by-Any P x (y ∷ ys) h = elim (Bool-cases (before y x)) [
    | inl later ↦ rw later (elim h [
      | inl p ↦ inr (insert_by-Any P x ys (inl p))
      | inr (inl q) ↦ inl q
      | inr (inr any) ↦ inr (insert_by-Any P x ys (inr any))
    ])
    | inr here ↦ rw here h
  ]

  -- What holds of an item holds of a sorted item.
  pub sort_by-Any : (P : A → Type 0) (xs : List A) → Any P xs → Any P (sort_by xs)
  unfolding sort_by
  sort_by-Any P [] any = elim any [ ]
  sort_by-Any P (x ∷ xs) (inl p) = insert_by-Any P x (sort_by xs) (inl p)
  sort_by-Any P (x ∷ xs) (inr any) = insert_by-Any P x (sort_by xs) (inr (sort_by-Any P xs any))

  insert_by-All_of :
      (P : A → Type 0) (x : A) (ys : List A) → All P (insert_by x ys) → P x × All P ys
  unfolding insert_by
  insert_by-All_of P x [] all = all
  insert_by-All_of P x (y ∷ ys) all = elim (Bool-cases (before y x)) [
    | inl later ↦
        let (q, rest) = rw (later, insert_by) at all in
        let (p, others) = insert_by-All_of P x ys rest in (p, (q, others))
    | inr here ↦ rw (here, insert_by) at all
  ]

  pub sort_by-All_of : (P : A → Type 0) (xs : List A) → All P (sort_by xs) → All P xs
  unfolding sort_by
  sort_by-All_of P [] all = tt
  sort_by-All_of P (x ∷ xs) all =
      let (p, rest) = insert_by-All_of P x (sort_by xs) all in (p, sort_by-All_of P xs rest)

  insert_by-Any_of :
      (P : A → Type 0) (x : A) (ys : List A) → Any P (insert_by x ys) → P x ⊎ Any P ys
  unfolding insert_by
  insert_by-Any_of P x [] any = any
  insert_by-Any_of P x (y ∷ ys) any = elim (Bool-cases (before y x)) [
    | inl later ↦ elim (rw (later, insert_by) at any) [
      | inl q ↦ inr (inl q)
      | inr rest ↦ elim (insert_by-Any_of P x ys rest) [ inl p ↦ inl p | inr q ↦ inr (inr q) ]
    ]
    | inr here ↦ rw (here, insert_by) at any
  ]

  pub sort_by-Any_of : (P : A → Type 0) (xs : List A) → Any P (sort_by xs) → Any P xs
  unfolding sort_by
  sort_by-Any_of P [] any = any
  sort_by-Any_of P (x ∷ xs) any = elim (insert_by-Any_of P x (sort_by xs) any) [
    | inl p ↦ inl p
    | inr rest ↦ inr (sort_by-Any_of P xs rest)
  ]

  -- No item is before an earlier one.
  abbrev pub IsSorted : List A → Type 0
  IsSorted [] = Unit
  IsSorted (x ∷ xs) = All (λ y. before y x ≡ false) xs × IsSorted xs

  -- The order is one of the given items: no two are each before the other, and "not before" is
  -- transitive.
  pub record IsOrder (Good : A → Type 0) : Type 0 where
    pub asym : (a b : A) → Good a → Good b → before a b ≡ true → before b a ≡ false
    pub trans :
        (a b c : A)
        → Good a
        → Good b
        → Good c
        → before b a ≡ false
        → before c b ≡ false
        → before c a ≡ false

  module _ (Good : A → Type 0) (order : IsOrder Good) where
    All-after :
        (a b : A) (ys : List A)
        → Good a
        → Good b
        → All Good ys
        → before b a ≡ false
        → All (λ y. before y b ≡ false) ys
        → All (λ y. before y a ≡ false) ys
    All-after a b [] ga gb gs e all = tt
    All-after a b (y ∷ ys) ga gb (gy, gs) e (h, all) =
        (order.trans a b y ga gb gy e h, All-after a b ys ga gb gs e all)

    insert_by-IsSorted :
        (x : A) (ys : List A) → Good x → All Good ys → IsSorted ys → IsSorted (insert_by x ys)
    unfolding insert_by
    insert_by-IsSorted x [] gx gs s = (tt, tt)
    insert_by-IsSorted x (y ∷ ys) gx (gy, gs) (below, s) = elim (Bool-cases (before y x)) [
      | inl later ↦ rw later (
        insert_by-All (λ z. before z y ≡ false) x ys (order.asym y x gy gx later) below,
        insert_by-IsSorted x ys gx gs s,
      )
      | inr here ↦ rw here ((here, All-after x y ys gx gy gs here below), (below, s))
    ]

    -- The sorted list is sorted.
    pub sort_by-IsSorted : (xs : List A) → All Good xs → IsSorted (sort_by xs)
    unfolding sort_by
    sort_by-IsSorted [] gs = tt
    sort_by-IsSorted (x ∷ xs) (gx, gs) =
        insert_by-IsSorted x (sort_by xs) gx (sort_by-All Good xs gs) (sort_by-IsSorted xs gs)
