-- ===== src/Prelude/Members.antt =====
-- Membership as a predicate by recursion, which the tactics read, for the lists that code filters.
use Prim.Native.Nat.{ℕ, zero, suc}
use mathlib.Core.Path.{◌≡◌}
use mathlib.Core.Logic.{◌⊎◌, inl, inr}
use mathlib.Core.Bool.{Bool, true}
use mathlib.Core.List.{List, [], ◌∷◌, ◌++◌}
use native.Mathlib.Omega.{arith}
use aztec_accelerator.Prelude.Lists.{keep, take, drop, All}

module _ {A : Type 0} where
  abbrev pub In : A → List A → Type 0
  In a [] = ⊥
  In a (x ∷ xs) = (a ≡ x) ⊎ In a xs

  pub In-keep : (p : A → Bool) (a : A) (xs : List A) → In a (keep p xs) → In a xs × (p a ≡ true)
  In-keep p a [] h = elim h [ ]
  In-keep p a (x ∷ xs) h = ground (arith, In-keep p a xs)

  pub keep-In : (p : A → Bool) (a : A) (xs : List A) → In a xs → p a ≡ true → In a (keep p xs)
  keep-In p a [] h e = elim h [ ]
  keep-In p a (x ∷ xs) h e = ground (arith, keep-In p a xs)

  pub In-append : (a : A) (xs ys : List A) → In a (xs ++ ys) → In a xs ⊎ In a ys
  In-append a [] ys h = inr h
  In-append a (x ∷ xs) ys h = ground (arith, In-append a xs ys)

  pub append_left-In : (a : A) (xs ys : List A) → In a xs → In a (xs ++ ys)
  append_left-In a [] ys h = elim h [ ]
  append_left-In a (x ∷ xs) ys h = ground (arith, append_left-In a xs ys)

  pub append_right-In : (a : A) (xs ys : List A) → In a ys → In a (xs ++ ys)
  append_right-In a [] ys h = h
  append_right-In a (x ∷ xs) ys h = inr (append_right-In a xs ys h)

  pub In-take : (n : ℕ) (a : A) (xs : List A) → In a (take n xs) → In a xs
  In-take zero a xs h = elim h [ ]
  In-take (suc n) a [] h = elim h [ ]
  In-take (suc n) a (x ∷ xs) h = ground (arith, In-take n a xs)

  pub In-take_or_drop :
      (n : ℕ) (a : A) (xs : List A) → In a xs → In a (take n xs) ⊎ In a (drop n xs)
  In-take_or_drop zero a xs h = inr h
  In-take_or_drop (suc n) a [] h = elim h [ ]
  In-take_or_drop (suc n) a (x ∷ xs) h = ground (arith, In-take_or_drop n a xs)

  pub All-In : (P : A → Type 0) (a : A) (xs : List A) → All P xs → In a xs → P a
  All-In P a [] h m = elim m [ ]
  All-In P a (x ∷ xs) (p, h) (inl e) = rw e p
  All-In P a (x ∷ xs) (p, h) (inr m) = All-In P a xs h m

module _ {A : Type 0} where
  pub In-drop : (n : ℕ) (a : A) (xs : List A) → In a (drop n xs) → In a xs
  In-drop zero a xs h = h
  In-drop (suc n) a [] h = elim h [ ]
  In-drop (suc n) a (x ∷ xs) h = inr (In-drop n a xs h)
