-- ===== src/Prelude/Decimal.antt =====
-- `str::parse::<u64>` on digits alone gives the decimal value of the text.
use Prim.Native.Nat.{ℕ, ◌+◌, ◌-◌, ◌*◌, ◌≤◌}
use mathlib.Core.Path.{◌≡◌, refl}
use mathlib.Core.Logic.{◌≢◌}
use mathlib.Core.Bool.{true}
use mathlib.Core.Option.{some}
use mathlib.Core.List.{[], ◌∷◌}
use native.Mathlib.Omega.{arith}
use aztec_accelerator.Prelude.Lists.{all, All}
use aztec_accelerator.Prelude.Texts.{Text, is_digit}
use aztec_accelerator.Prelude.Numbers.{parse_u64, parse_digits, u64_max}

-- The number that a run of decimal digits stands for.
abbrev pub decimal_value : ℕ → Text → ℕ
decimal_value acc [] = acc
decimal_value acc (c ∷ s) = decimal_value (acc * 10 + (c - 48)) s

-- Digits within the 64-bit range are parsed to their decimal value, and nothing else is.
parse_digits_sound : (acc n : ℕ) (s : Text) → parse_digits acc s ≡ some n → decimal_value acc s ≡ n
unfolding parse_digits
parse_digits_sound acc n [] h = ground arith
parse_digits_sound acc n (c ∷ s) h = ground (arith, parse_digits_sound (acc * 10 + (c - 48)) n s)

decimal_value-le : (acc : ℕ) (s : Text) → acc ≤ decimal_value acc s
decimal_value-le acc [] = omega arith
decimal_value-le acc (c ∷ s) = ground (arith, decimal_value-le (acc * 10 + (c - 48)) s)

pub parse_digits_complete :
    (acc : ℕ) (s : Text)
    → all is_digit s ≡ true
    → decimal_value acc s ≤ u64_max
    → parse_digits acc s ≡ some (decimal_value acc s)
unfolding parse_digits
parse_digits_complete acc [] h le = refl
parse_digits_complete acc (c ∷ s) h le =
    ground (
      arith,
      decimal_value-le (acc * 10 + (c - 48)) s,
      parse_digits_complete (acc * 10 + (c - 48)) s,
    )

pub parse_u64_sound :
    (s : Text) (n : ℕ)
    → all is_digit s ≡ true
    → parse_u64 s ≡ some n
    → (s ≢ []) × (decimal_value 0 s ≡ n)
unfolding parse_u64
parse_u64_sound [] n d h = absurd (ground arith)
parse_u64_sound (c ∷ []) n d h = ground arith
parse_u64_sound (c ∷ (e ∷ s)) n d h =
    (λ q. cc, ground (arith, parse_digits_sound 0 n (c ∷ (e ∷ s))))

pub digits-All : (s : Text) → all is_digit s ≡ true → All (λ c. (48 ≤ c) × (c ≤ 57)) s
digits-All [] h = tt
digits-All (c ∷ s) h = (ground arith, digits-All s (ground arith))

pub All-digits : (s : Text) → All (λ c. (48 ≤ c) × (c ≤ 57)) s → all is_digit s ≡ true
All-digits [] h = refl
All-digits (c ∷ s) (h, k) = ground (arith, All-digits s k)
