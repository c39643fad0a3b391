-- ===== src/Prelude/Replace.antt =====
-- `str::replace` on bytes, for a pattern that is not empty.
use Prim.Native.Nat.{ℕ, zero, suc, ◌-◌}
use mathlib.Core.Bool.{true, false}
use mathlib.Core.List.{[], ◌∷◌, ◌++◌}
use aztec_accelerator.Prelude.Lists.{length}
use aztec_accelerator.Prelude.Texts.{Text, starts_with}

-- From the left, without overlaps; the number counts the bytes of a match that are still to pass.
unfoldable pub replace_from : Text → Text → ℕ → Text → Text
replace_from pat new k [] = []
replace_from pat new (suc k) (c ∷ s) = replace_from pat new k s
replace_from pat new zero (c ∷ s) = elim (starts_with (c ∷ s) pat) [
  | true ↦ new ++ replace_from pat new (length pat - 1) s
  | false ↦ c ∷ replace_from pat new zero s
]

unfoldable pub replace : Text → Text → Text → Text
unfolding replace_from
replace pat new s = replace_from pat new 0 s
