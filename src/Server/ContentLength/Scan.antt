-- ===== src/Server/ContentLength/Scan.antt =====
-- What the loops of `reject_declared_oversize` in packages/accelerator/core/src/server/prove.rs accept.
use aztec_accelerator.Prelude.{
  ℕ, ◌≤◌, ◌≡◌, ◌≢◌, ◌↔◌, ◌⊎◌, inl, inr, refl, true, false, Option, none, some, List, [], ◌∷◌, all,
  ◌==◌, nat_eq, arith, All, Option-cases, Bool-cases,
}
use aztec_accelerator.Prelude.Texts.{Text, is_digit}
use aztec_accelerator.Prelude.Numbers.{parse_u64, parse_u64_of_digits}
use aztec_accelerator.Prelude.Decimal.{
  decimal_value, parse_digits_complete, parse_u64_sound, digits-All, All-digits,
}
use aztec_accelerator.Server.ContentLength.{
  max_body_size, is_empty, trim, split_commas, prepend, element, agrees, scan_parts, scan_values,
  reject_declared_oversize,
}

-- With spaces and tabs cut off, a non-empty run of decimal digits that stands for n.
abbrev pub TrimmedLength : ℕ → Text → Type 0
TrimmedLength n part =
    (trim part ≢ [])
    × All (λ c. (48 ≤ c) × (c ≤ 57)) (trim part)
    × (decimal_value 0 (trim part) ≡ n)

-- Every element of every value declares the length n.
abbrev pub AllTrimmed : ℕ → List (Option Text) → Type 0
AllTrimmed n [] = Unit
AllTrimmed n (none ∷ values) = ⊥
AllTrimmed n (some s ∷ values) = All (TrimmedLength n) (split_commas s) × AllTrimmed n values

-- Every element of every value is the length n.
abbrev ElementsAre : ℕ → List (Option Text) → Type 0
ElementsAre n [] = Unit
ElementsAre n (none ∷ values) = ⊥
ElementsAre n (some s ∷ values) =
    All (λ part. element part ≡ some n) (split_commas s) × ElementsAre n values

scan_parts_sound :
    (n : ℕ) (parts : List Text) (r : Option ℕ)
    → scan_parts (some n) parts ≡ some r
    → (r ≡ some n) × All (λ part. element part ≡ some n) parts
unfolding scan_parts agrees
scan_parts_sound n [] r h = (ground arith, tt)
scan_parts_sound n (part ∷ parts) r h = elim (Option-cases (element part)) [
  | inl bad ↦ absurd (ground arith)
  | inr (len, good) ↦ ground (arith, good, scan_parts_sound len parts r)
]

scan_parts_complete :
    (n : ℕ) (parts : List Text)
    → All (λ part. element part ≡ some n) parts
    → scan_parts (some n) parts ≡ some (some n)
unfolding scan_parts agrees
scan_parts_complete n [] h = refl
scan_parts_complete n (part ∷ parts) (h, k) = ground (arith, scan_parts_complete n parts k)

scan_values_sound :
    (n : ℕ) (values : List (Option Text)) (r : Option ℕ)
    → scan_values (some n) values ≡ some r
    → ElementsAre n values
unfolding scan_values
scan_values_sound n [] r h = tt
scan_values_sound n (none ∷ values) r h = absurd (ground arith)
scan_values_sound n (some s ∷ values) r h =
    elim (Option-cases (scan_parts (some n) (split_commas s))) [
      | inl bad ↦ absurd (ground arith)
      | inr (seen, good) ↦
          let (same, here) = scan_parts_sound n (split_commas s) seen good in
          (here, scan_values_sound n values r (ground arith))
    ]

scan_values_complete :
    (n : ℕ) (values : List (Option Text))
    → ElementsAre n values
    → scan_values (some n) values ≡ some (some n)
unfolding scan_values
scan_values_complete n [] h = refl
scan_values_complete n (none ∷ values) h = elim h [ ]
scan_values_complete n (some s ∷ values) (h, k) =
    rw (scan_parts_complete n (split_commas s) h, scan_values) (scan_values_complete n values k)

element-le : (part : Text) (n : ℕ) → element part ≡ some n → n ≤ max_body_size
unfolding element
element-le part n h = ground arith

prepend-cases : (c : ℕ) (ss : List Text) → (p : Text) × (ps : List Text) × (prepend c ss ≡ p ∷ ps)
unfolding prepend
prepend-cases c [] = (c ∷ [], [], refl)
prepend-cases c (s ∷ ss) = (c ∷ s, ss, refl)

split_commas-cases : (s : Text) → (p : Text) × (ps : List Text) × (split_commas s ≡ p ∷ ps)
unfolding split_commas
split_commas-cases [] = ([], [], refl)
split_commas-cases (c ∷ s) = elim (Bool-cases (c == b',')) [
  | inl comma ↦ ([], split_commas s, rw comma refl)
  | inr other ↦ let (p, ps, e) = prepend-cases c (split_commas s) in (p, ps, rw other e)
]

-- The first value of a header sets the length that all others must declare.
scan_parts-none :
    (p : Text) (ps : List Text) (r : Option ℕ)
    → scan_parts none (p ∷ ps) ≡ some r
    → (n : ℕ) × (r ≡ some n) × All (λ part. element part ≡ some n) (p ∷ ps)
unfolding scan_parts agrees
scan_parts-none p ps r h = elim (Option-cases (element p)) [
  | inl bad ↦ absurd (ground arith)
  | inr (n, good) ↦
      let (same, others) = scan_parts_sound n ps r (ground arith) in (n, same, (good, others))
]

scan_parts-none_complete :
    (n : ℕ) (p : Text) (ps : List Text)
    → All (λ part. element part ≡ some n) (p ∷ ps)
    → scan_parts none (p ∷ ps) ≡ some (some n)
unfolding scan_parts agrees
scan_parts-none_complete n p ps (h, k) = ground (arith, scan_parts_complete n ps k)

scan_values-none :
    (s : Text) (values : List (Option Text)) (r : Option ℕ)
    → scan_values none (some s ∷ values) ≡ some r
    → (n : ℕ) × (n ≤ max_body_size) × ElementsAre n (some s ∷ values)
unfolding scan_values
scan_values-none s values r h =
    let (p, ps, e) = split_commas-cases s in
    elim (Option-cases (scan_parts none (p ∷ ps))) [
      | inl bad ↦ absurd (ground (arith, e))
      | inr (seen, good) ↦
          let (n, same, here) = scan_parts-none p ps seen good in
          let rest = scan_values_sound n values r (ground (arith, e)) in
          (n, element-le p n here.0, rw e (here, rest))
    ]

scan_values-none_complete :
    (n : ℕ) (s : Text) (values : List (Option Text))
    → ElementsAre n (some s ∷ values)
    → scan_values none (some s ∷ values) ≡ some (some n)
unfolding scan_values
scan_values-none_complete n s values (h, k) =
    let (p, ps, e) = split_commas-cases s in
    ground (arith, e, scan_parts-none_complete n p ps (rw e at h), scan_values_complete n values k)

is_empty-nil : (s : Text) → s ≢ [] → is_empty s ≡ false
is_empty-nil [] h = absurd (h refl)
is_empty-nil (c ∷ s) h = refl

element-TrimmedLength : (n : ℕ) (part : Text) → element part ≡ some n → TrimmedLength n part
unfolding element
element-TrimmedLength n part h =
    let digits : all is_digit (trim part) ≡ true = ground arith in
    let parsed : parse_u64 (trim part) ≡ some n = ground arith in
    let (filled, value) = parse_u64_sound (trim part) n digits parsed in
    (filled, digits-All (trim part) digits, value)

TrimmedLength-element :
    (n : ℕ) (part : Text) → n ≤ max_body_size → TrimmedLength n part → element part ≡ some n
unfolding element
TrimmedLength-element n part le (filled, digits, value) =
    let plain = All-digits (trim part) digits in
    let parsed : parse_u64 (trim part) ≡ some n =
      parse_u64_of_digits (trim part) n (ground (arith, parse_digits_complete 0 (trim part)))
        filled in
    ground (arith, is_empty-nil (trim part) filled)

All-map :
    (P Q : Text → Type 0) (parts : List Text)
    → ((part : Text) → P part → Q part)
    → All P parts
    → All Q parts
All-map P Q [] f h = tt
All-map P Q (part ∷ parts) f (h, k) = (f part h, All-map P Q parts f k)

ElementsAre-AllTrimmed :
    (n : ℕ) (values : List (Option Text)) → ElementsAre n values → AllTrimmed n values
ElementsAre-AllTrimmed n [] h = tt
ElementsAre-AllTrimmed n (none ∷ values) h = h
ElementsAre-AllTrimmed n (some s ∷ values) (h, k) = (
  All-map _ (TrimmedLength n) (split_commas s) (element-TrimmedLength n) h,
  ElementsAre-AllTrimmed n values k,
)

AllTrimmed-ElementsAre :
    (n : ℕ)
    → n ≤ max_body_size
    → (values : List (Option Text)) → AllTrimmed n values
    → ElementsAre n values
AllTrimmed-ElementsAre n le [] h = tt
AllTrimmed-ElementsAre n le (none ∷ values) h = h
AllTrimmed-ElementsAre n le (some s ∷ values) (h, k) = (
  All-map (TrimmedLength n) _ (split_commas s) (λ part. TrimmedLength-element n part le) h,
  AllTrimmed-ElementsAre n le values k,
)

-- The same, on the trimmed elements between commas.
pub scanned_exact :
    (values : List (Option Text))
    → (reject_declared_oversize values ≡ false)
      ↔ ((values ≡ []) ⊎ ((n : ℕ) × (n ≤ max_body_size) × AllTrimmed n values))
unfolding reject_declared_oversize
scanned_exact [] = (λ h. inl refl, λ h. refl)
scanned_exact (none ∷ values) = (
  λ h. absurd (ground arith),
  λ h. elim h [ inl e ↦ absurd (ground arith) | inr (n, le, f) ↦ elim f [ ] ],
)
scanned_exact (some s ∷ values) = (
  λ h. elim (Option-cases (scan_values none (some s ∷ values))) [
    | inl bad ↦ absurd (ground (arith, bad))
    | inr (r, good) ↦
        let (n, le, same) = scan_values-none s values r good in
        inr (n, le, ElementsAre-AllTrimmed n (some s ∷ values) same)
  ],
  λ h. elim h [
    | inl e ↦ absurd (ground arith)
    | inr (n, le, all_n) ↦
        rw
          (
            scan_values-none_complete n s values
                (AllTrimmed-ElementsAre n le (some s ∷ values) all_n),
            reject_declared_oversize,
          )
          refl
  ],
)
