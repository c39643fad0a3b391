-- ===== src/Prelude/Maps.antt =====
-- `HashMap` as an association list; the order of entries stands for the unspecified iteration order.
use Prim.Native.Nat.{◌+◌, ◌≤◌}
use mathlib.Core.Path.{◌≡◌}
use mathlib.Core.Option.{Option, none, some}
use mathlib.Core.List.{List, [], ◌∷◌}
use native.Mathlib.Omega.{arith}
use aztec_accelerator.Prelude.Tests.{if◌then◌else◌}
use aztec_accelerator.Prelude.Equality.{PartialEq, ◌==◌, eq_iff}
use aztec_accelerator.Prelude.Lists.{length}

abbrev pub Map {ℓ κ} : Type ℓ → Type κ → Type (ℓ ⊔ κ)
Map K V = List (K × V)

module _ {ℓ κ} {K : Type ℓ} {V : Type κ} ⦃e : PartialEq K⦄ where
  -- HashMap::get
  unfoldable pub lookup : K → Map K V → Option V
  lookup k [] = none
  lookup k ((j, v) ∷ m) = if j == k then some v else lookup k m

  -- HashMap::remove, without the removed value
  unfoldable pub remove : K → Map K V → Map K V
  remove k [] = []
  remove k ((j, v) ∷ m) = let rest = remove k m in if j == k then rest else (j, v) ∷ rest

  -- HashMap::insert
  unfoldable pub insert : K → V → Map K V → Map K V
  unfolding remove
  insert k v m = (k, v) ∷ remove k m

  pub lookup-remove :
      (k j : K) (m : Map K V) → lookup j (remove k m) ≡ (if k == j then none else lookup j m)
  unfolding lookup remove
  lookup-remove k j [] = ground arith
  lookup-remove k j ((i, v) ∷ m) =
      ground (arith, lookup-remove k j m, eq_iff i k, eq_iff i j, eq_iff k j)

  pub lookup-insert :
      (k j : K) (v : V) (m : Map K V)
      → lookup j (insert k v m) ≡ (if k == j then some v else lookup j m)
  unfolding lookup insert
  lookup-insert k j v m = ground (arith, lookup-remove k j m)

  pub length-remove : (k : K) (m : Map K V) → length (remove k m) ≤ length m
  unfolding remove
  length-remove k [] = omega arith
  length-remove k ((j, v) ∷ m) = ground (arith, length-remove k m)

  pub length-insert : (k : K) (v : V) (m : Map K V) → length (insert k v m) ≤ length m + 1
  unfolding insert
  length-insert k v m = omega (arith, length-remove k m)

module _ {ℓ κ} {K : Type ℓ} {V : Type κ} ⦃e : PartialEq K⦄ where
  -- Removing a key that is there makes a map shorter.
  pub length-remove-some :
      (k : K) (m : Map K V) (v : V) → lookup k m ≡ some v → length (remove k m) + 1 ≤ length m
  unfolding lookup remove
  length-remove-some k [] v h = absurd (ground arith)
  length-remove-some k ((j, w) ∷ m) v h =
      ground (arith, length-remove k m, length-remove-some k m v, eq_iff j k)

  -- Writing to a key that is there makes a map no longer.
  pub length-insert-some :
      (k : K) (w : V) (m : Map K V) (v : V) → lookup k m ≡ some v → length (insert k w m) ≤ length m
  unfolding insert
  length-insert-some k w m v h = omega (arith, length-remove-some k m v h)

pub ruleset map_laws = (lookup-insert, lookup-remove)
