-- ===== src/Prelude/Numbers.antt =====
-- Unsigned machine integers: their decimal form, `str::parse::<u64>` and saturating arithmetic.
use Prim.Native.Nat.{ℕ, zero, suc, ◌+◌, ◌-◌, ◌*◌, ◌/◌, ◌%◌, ◌^◌, ◌≤◌, ◌<◌}
use mathlib.Core.Path.{◌≡◌}
use mathlib.Core.Logic.{◌≢◌}
use aztec_accelerator.Prelude.Lists.{contains}
use mathlib.Core.Bool.{false}
use mathlib.Core.Bool.{◌&&◌}
use mathlib.Core.Option.{Option, none, some}
use mathlib.Core.List.{[], ◌∷◌, ◌++◌}
use native.Mathlib.Omega.{arith}
use aztec_accelerator.Prelude.Tests.{ltb, leb, if◌then◌else◌}
use aztec_accelerator.Prelude.Equality.{◌==◌, nat_eq}
use aztec_accelerator.Prelude.Texts.{Text, is_digit}

abbrev pub u64_max : ℕ
u64_max = 2 ^ 64 - 1

-- `u64::saturating_add`
abbrev pub saturating_add : ℕ → ℕ → ℕ
saturating_add a b = if ltb u64_max (a + b) then u64_max else a + b

-- The loop of `u64::from_str`: every byte a digit, and no step past the type's maximum.
unfoldable pub parse_digits : ℕ → Text → Option ℕ
parse_digits acc [] = some acc
parse_digits acc (c ∷ s) =
    let n = acc * 10 + (c - b'0') in
    let rest = parse_digits n s in if is_digit c && leb n u64_max then rest else none

-- `str::parse::<u64>`: one leading `+` is taken, an empty text or a lone sign is refused.
unfoldable pub parse_u64 : Text → Option ℕ
unfolding parse_digits
parse_u64 [] = none
parse_u64 (c ∷ []) = if is_digit c then some (c - b'0') else none
parse_u64 (c ∷ (d ∷ s)) = if c == b'+' then parse_digits 0 (d ∷ s) else parse_digits 0 (c ∷ (d ∷ s))

-- The decimal form of a number, on fuel.
pub decimal_fuel : ℕ → ℕ → Text
decimal_fuel zero n = (b'0' + n % 10) ∷ []
decimal_fuel (suc fuel) n =
    let rest = decimal_fuel fuel (n / 10) in
    if ltb n 10 then (b'0' + n) ∷ [] else rest ++ (b'0' + n % 10) ∷ []

-- Twenty digits hold every 64-bit number.
unfoldable pub decimal : ℕ → Text
unfolding decimal_fuel
decimal n = decimal_fuel 19 n

parse_digits-append :
    (acc m : ℕ) (s : Text) (d : ℕ)
    → parse_digits acc s ≡ some m
    → d < 10
    → m * 10 + d ≤ u64_max
    → parse_digits acc (s ++ (b'0' + d) ∷ []) ≡ some (m * 10 + d)
unfolding parse_digits
parse_digits-append acc m [] d h lt le = ground arith
parse_digits-append acc m (c ∷ s) d h lt le =
    ground (arith, parse_digits-append (acc * 10 + (c - b'0')) m s d)

parse_digits-decimal_fuel :
    (k n : ℕ) → n < 10 * 10 ^ k → n ≤ u64_max → parse_digits 0 (decimal_fuel k n) ≡ some n
unfolding decimal_fuel parse_digits
parse_digits-decimal_fuel zero n h le = ground arith
parse_digits-decimal_fuel (suc k) n h le = ground (
  arith,
  parse_digits-decimal_fuel k (n / 10),
  parse_digits-append 0 (n / 10) (decimal_fuel k (n / 10)) (n % 10),
)

pub parse_u64_of_digits :
    (s : Text) (n : ℕ) → parse_digits 0 s ≡ some n → s ≢ [] → parse_u64 s ≡ some n
unfolding parse_u64
parse_u64_of_digits [] n h e = ground arith
parse_u64_of_digits (c ∷ []) n h e = ground arith
parse_u64_of_digits (c ∷ (d ∷ s)) n h e = ground arith

append_ne_nil : (s : Text) (d : ℕ) → s ++ d ∷ [] ≢ []
append_ne_nil [] d = λ e. cc
append_ne_nil (c ∷ s) d = λ e. cc

decimal_fuel_ne_nil : (k n : ℕ) → decimal_fuel k n ≢ []
unfolding decimal_fuel
decimal_fuel_ne_nil zero n = λ e. cc
decimal_fuel_ne_nil (suc k) n =
    ground (arith, append_ne_nil (decimal_fuel k (n / 10)) (b'0' + n % 10))

-- Printing a 64-bit number and parsing it gives the number back.
pub parse_u64-decimal : (n : ℕ) → n ≤ u64_max → parse_u64 (decimal n) ≡ some n
unfolding decimal
parse_u64-decimal n h =
    parse_u64_of_digits (decimal_fuel 19 n) n (parse_digits-decimal_fuel 19 n (omega arith) h)
      (decimal_fuel_ne_nil 19 n)

-- A decimal form holds no dot.
no_dot-append :
    (s : Text) (d : ℕ)
    → contains b'.' s ≡ false
    → d < 10
    → contains b'.' (s ++ (b'0' + d) ∷ []) ≡ false
no_dot-append [] d h lt = ground arith
no_dot-append (c ∷ s) d h lt = ground (arith, no_dot-append s d)

no_dot-decimal_fuel : (k n : ℕ) → contains b'.' (decimal_fuel k n) ≡ false
unfolding decimal_fuel
no_dot-decimal_fuel zero n = ground arith
no_dot-decimal_fuel (suc k) n =
    ground (arith, no_dot-decimal_fuel k (n / 10), no_dot-append (decimal_fuel k (n / 10)) (n % 10))

pub no_dot-decimal : (n : ℕ) → contains b'.' (decimal n) ≡ false
unfolding decimal
no_dot-decimal n = no_dot-decimal_fuel 19 n
