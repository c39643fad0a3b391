-- ===== src/Prelude/Sorting.antt =====
-- `slice::sort_by` (a stable sort) by insertion, for a total and transitive Boolean order.
use Prim.Native.Nat.{ℕ, zero, suc}
use mathlib.Core.Path.{◌≡◌, refl}
use mathlib.Core.Logic.{◌⊎◌, inl, inr}
use mathlib.Core.Bool.{Bool, true, false}
use mathlib.Core.List.{List, [], ◌∷◌}
use native.Mathlib.Omega.{arith}
use aztec_accelerator.Prelude.Tests.{if◌then◌else◌, Bool-cases}
use aztec_accelerator.Prelude.Lists.{All, keep, length, take, drop}
use aztec_accelerator.Prelude.Members.{In, All-In, In-drop}

pub record IsOrder {ℓ} {A : Type ℓ} (le : A → A → Bool) : Type ℓ where
  pub total : (a b : A) → le a b ≡ false → le b a ≡ true
  pub trans : (a b c : A) → le a b ≡ true → le b c ≡ true → le a c ≡ true

module _ {A : Type 0} (le : A → A → Bool) where
  unfoldable pub insert_sorted : A → List A → List A
  insert_sorted a [] = a ∷ []
  insert_sorted a (x ∷ xs) =
      let rest = insert_sorted a xs in if le a x then a ∷ (x ∷ xs) else x ∷ rest

  unfoldable pub sort : List A → List A
  unfolding insert_sorted
  sort [] = []
  sort (x ∷ xs) = insert_sorted x (sort xs)

  abbrev pub IsSorted : List A → Type 0
  IsSorted [] = Unit
  IsSorted (x ∷ xs) = All (λ y. le x y ≡ true) xs × IsSorted xs

  pub sort-two : (a b : A) → le a b ≡ true → sort (a ∷ (b ∷ [])) ≡ a ∷ (b ∷ [])
  unfolding sort
  sort-two a b h = ground arith

  In-insert_sorted : (a b : A) (xs : List A) → In a (insert_sorted b xs) → (a ≡ b) ⊎ In a xs
  unfolding insert_sorted
  In-insert_sorted a b [] h = ground arith
  In-insert_sorted a b (x ∷ xs) h = ground (arith, In-insert_sorted a b xs)

  insert_sorted-In : (a b : A) (xs : List A) → (a ≡ b) ⊎ In a xs → In a (insert_sorted b xs)
  unfolding insert_sorted
  insert_sorted-In a b [] h = ground arith
  insert_sorted-In a b (x ∷ xs) h = ground (arith, insert_sorted-In a b xs)

  pub In-sort : (a : A) (xs : List A) → In a (sort xs) → In a xs
  unfolding sort
  In-sort a [] h = h
  In-sort a (x ∷ xs) h = ground (arith, In-insert_sorted a x (sort xs), In-sort a xs)

  pub sort-In : (a : A) (xs : List A) → In a xs → In a (sort xs)
  unfolding sort
  sort-In a [] h = h
  sort-In a (x ∷ xs) h = ground (arith, insert_sorted-In a x (sort xs), sort-In a xs)

  length-keep-insert_sorted :
      (p : A → Bool) (a : A) (xs : List A)
      → length (keep p (insert_sorted a xs)) ≡ length (keep p (a ∷ xs))
  unfolding insert_sorted
  length-keep-insert_sorted p a [] = refl
  length-keep-insert_sorted p a (x ∷ xs) = ground (arith, length-keep-insert_sorted p a xs)

  -- Sorting keeps how many elements pass a test.
  pub length-keep-sort :
      (p : A → Bool) (xs : List A) → length (keep p (sort xs)) ≡ length (keep p xs)
  unfolding sort
  length-keep-sort p [] = refl
  length-keep-sort p (x ∷ xs) =
      ground (arith, length-keep-insert_sorted p x (sort xs), length-keep-sort p xs)

  module _ (o : IsOrder le) where
    All-insert_sorted :
        (a b : A) (xs : List A)
        → le a b ≡ true
        → All (λ y. le a y ≡ true) xs
        → All (λ y. le a y ≡ true) (insert_sorted b xs)
    unfolding insert_sorted
    All-insert_sorted a b [] h k = ground arith
    All-insert_sorted a b (x ∷ xs) h k = ground (arith, All-insert_sorted a b xs)

    All-trans :
        (a b : A) (xs : List A)
        → le a b ≡ true
        → All (λ y. le b y ≡ true) xs
        → All (λ y. le a y ≡ true) xs
    All-trans a b [] h k = tt
    All-trans a b (x ∷ xs) h (k, ks) = (o.trans a b x h k, All-trans a b xs h ks)

    insert_sorted-IsSorted : (a : A) (xs : List A) → IsSorted xs → IsSorted (insert_sorted a xs)
    unfolding insert_sorted
    insert_sorted-IsSorted a [] h = (tt, tt)
    insert_sorted-IsSorted a (x ∷ xs) (k, ks) = elim (Bool-cases (le a x)) [
      | inl e ↦ rw e ((e, All-trans a x xs e k), (k, ks))
      | inr n ↦ rw n (All-insert_sorted x a xs (o.total a x n) k, insert_sorted-IsSorted a xs ks)
    ]

    pub sort-IsSorted : (xs : List A) → IsSorted (sort xs)
    unfolding sort
    sort-IsSorted [] = tt
    sort-IsSorted (x ∷ xs) = insert_sorted-IsSorted x (sort xs) (sort-IsSorted xs)

  keep-All : (P : A → Type 0) (p : A → Bool) (xs : List A) → All P xs → All P (keep p xs)
  keep-All P p [] h = tt
  keep-All P p (x ∷ xs) (h, k) = elim (Bool-cases (p x)) [
    | inl e ↦ rw e (h, keep-All P p xs k)
    | inr e ↦ rw e (keep-All P p xs k)
  ]

  pub keep-IsSorted : (p : A → Bool) (xs : List A) → IsSorted xs → IsSorted (keep p xs)
  keep-IsSorted p [] h = tt
  keep-IsSorted p (x ∷ xs) (h, k) = elim (Bool-cases (p x)) [
    | inl e ↦ rw e (keep-All (λ y. le x y ≡ true) p xs h, keep-IsSorted p xs k)
    | inr e ↦ rw e (keep-IsSorted p xs k)
  ]

  -- In a sorted list, what stands among the first n is below what stands behind them.
  pub take_le_drop :
      (n : ℕ) (a b : A) (xs : List A)
      → IsSorted xs
      → In a (take n xs)
      → In b (drop n xs)
      → le a b ≡ true
  take_le_drop zero a b xs s h k = elim h [ ]
  take_le_drop (suc n) a b [] s h k = elim h [ ]
  take_le_drop (suc n) a b (x ∷ xs) (s, ss) (inl e) k =
      rw e (All-In (λ y. le x y ≡ true) b xs s (In-drop n b xs k))
  take_le_drop (suc n) a b (x ∷ xs) (s, ss) (inr h) k = take_le_drop n a b xs ss h k
