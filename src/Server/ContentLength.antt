-- ===== src/Server/ContentLength.antt =====
-- packages/accelerator/core/src/server/prove.rs: `reject_declared_oversize`. Headers hold visible
-- ASCII, spaces and tabs, or are not readable as text (`none`).
pub mod Elements
pub mod Exact
pub mod Scan
use aztec_accelerator.Prelude.{
  ℕ, ◌*◌, Bool, true, false, not, ◌||◌, Option, none, some, List, [], ◌∷◌, ltb, all, ◌==◌, nat_eq,
  if◌then◌else◌,
}
use aztec_accelerator.Prelude.Texts.{Text, is_digit}
use aztec_accelerator.Prelude.Numbers.{parse_u64}
use mathlib.Core.List.{reverse}

-- 50 MiB
abbrev pub max_body_size : ℕ
max_body_size = 50 * 1024 * 1024

abbrev pub is_space : ℕ → Bool
is_space c = c == 32 || c == 9

unfoldable pub skip_spaces : Text → Text
skip_spaces [] = []
skip_spaces (c ∷ s) = let rest = skip_spaces s in if is_space c then rest else c ∷ s

-- `str::trim`
unfoldable pub trim : Text → Text
unfolding skip_spaces
trim s = reverse (skip_spaces (reverse (skip_spaces s)))

unfoldable pub prepend : ℕ → List Text → List Text
prepend c [] = (c ∷ []) ∷ []
prepend c (s ∷ ss) = (c ∷ s) ∷ ss

-- `s.split(',')`
unfoldable pub split_commas : Text → List Text
unfolding prepend
split_commas [] = [] ∷ []
split_commas (c ∷ s) = if c == b',' then [] ∷ split_commas s else prepend c (split_commas s)

-- One element: digits alone, a `u64`, and not above the cap; `none` is a rejection.
abbrev pub is_empty : Text → Bool
is_empty [] = true
is_empty (_ ∷ _) = false

unfoldable pub element : Text → Option ℕ
unfolding trim
element part =
    let p = trim part in
    if is_empty p || not (all is_digit p) then none else elim (parse_u64 p) [
      | none ↦ none
      | some len ↦ if ltb max_body_size len then none else some len
    ]

-- `match seen`: a second value must agree with the first.
unfoldable pub agrees : Option ℕ → ℕ → Bool
agrees none len = true
agrees (some prev) len = prev == len

-- The inner loop: the value seen so far, or `none` for a rejection.
unfoldable pub scan_parts : Option ℕ → List Text → Option (Option ℕ)
scan_parts seen [] = some seen
scan_parts seen (part ∷ parts) = elim (element part) [
  | none ↦ none
  | some len ↦ let rest = scan_parts (some len) parts in if agrees seen len then rest else none
]

-- The outer loop over the header's values.
unfoldable pub scan_values : Option ℕ → List (Option Text) → Option (Option ℕ)
unfolding scan_parts
scan_values seen [] = some seen
scan_values seen (none ∷ values) = none
scan_values seen (some s ∷ values) = elim (scan_parts seen (split_commas s)) [
  | none ↦ none
  | some seen' ↦ scan_values seen' values
]

-- `true` is a rejection with 413.
unfoldable pub reject_declared_oversize : List (Option Text) → Bool
unfolding scan_values element agrees
reject_declared_oversize values = elim (scan_values none values) [ none ↦ true | some _ ↦ false ]
