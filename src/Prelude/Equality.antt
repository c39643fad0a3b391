-- ===== src/Prelude/Equality.antt =====
-- `PartialEq` of the types that are compared: a Boolean test that decides equality.
use Prim.Native.Nat.{ℕ, compare, Ordering}
use mathlib.Core.Path.{◌≡◌, refl}
use mathlib.Core.Logic.{◌↔◌}
use mathlib.Core.Bool.{Bool, true, false, ◌&&◌}
use mathlib.Core.List.{List, [], ◌∷◌}
use native.Mathlib.Omega.{arith}

-- `a == b`, which holds of the same values and of no others.
pub record PartialEq {κ} (T : Type κ) : Type κ where
  pub eq : T → T → Bool
  pub eq_same : (x : T) → eq x x ≡ true
  pub eq_only : (x y : T) → eq x y ≡ true → x ≡ y

abbrev pub same_nat : ℕ → ℕ → Bool
same_nat m n = elim (compare m n) [ Ordering.eq ↦ true | _ ↦ false ]

pub same_nat_refl : (m : ℕ) → same_nat m m ≡ true
same_nat_refl m = ground arith

pub same_nat_only : (m n : ℕ) → same_nat m n ≡ true → m ≡ n
same_nat_only m n h = ground arith

instance abbrev pub nat_eq : PartialEq ℕ
nat_eq = record { eq = same_nat; eq_same = same_nat_refl; eq_only = same_nat_only }

infix 50 ◌==◌
abbrev pub ◌==◌ {κ} : {T : Type κ} ⦃i : PartialEq T⦄ → T → T → Bool
◌==◌ ⦃i⦄ x y = i.eq x y

module _ {ℓ} {A : Type ℓ} ⦃e : PartialEq A⦄ where
  pub eq_sound : (a b : A) → (a == b) ≡ true → a ≡ b
  eq_sound = e.eq_only

  pub eq_refl : (a : A) → (a == a) ≡ true
  eq_refl = e.eq_same

  pub eq_iff : (a b : A) → ((a == b) ≡ true) ↔ (a ≡ b)
  eq_iff a b = (eq_sound a b, λ h. rw (← h) (eq_refl a))

  unfoldable pub list_beq : List A → List A → Bool
  list_beq [] [] = true
  list_beq (a ∷ xs) (b ∷ ys) = (a == b) && list_beq xs ys
  list_beq _ _ = false

  pub list_beq_sound : (xs ys : List A) → list_beq xs ys ≡ true → xs ≡ ys
  unfolding list_beq
  list_beq_sound [] [] h = refl
  list_beq_sound [] (b ∷ ys) h = cc
  list_beq_sound (a ∷ xs) [] h = cc
  list_beq_sound (a ∷ xs) (b ∷ ys) h = ground (arith, eq_sound a b, list_beq_sound xs ys)

  pub list_beq_refl : (xs : List A) → list_beq xs xs ≡ true
  unfolding list_beq
  list_beq_refl [] = refl
  list_beq_refl (a ∷ xs) = ground (arith, eq_refl a, list_beq_refl xs)

  pub list_beq_complete : (xs ys : List A) → xs ≡ ys → list_beq xs ys ≡ true
  list_beq_complete xs ys p = rw (← p) (list_beq_refl xs)

  instance abbrev pub list_eq : PartialEq (List A)
  list_eq = record { eq = list_beq; eq_same = list_beq_refl; eq_only = list_beq_sound }
