-- ===== src/Server/ContentLength/Elements.antt =====
-- The elements of a Content-Length value in packages/accelerator/core/src/server/prove.rs: what is
-- between commas, and what is left of it without the spaces around it.
use aztec_accelerator.Prelude.{
  ℕ, ◌≤◌, ◌≡◌, ◌≢◌, ◌⊎◌, inl, inr, refl, ap, sym, subst, ◌∙◌, false, List, [], ◌∷◌, ◌++◌, contains,
  ◌==◌, nat_eq, arith, All, Bool-cases,
}
use aztec_accelerator.Prelude.Texts.{Text}
use aztec_accelerator.Server.ContentLength.{skip_spaces, trim, split_commas, prepend, is_space}
use mathlib.Core.List.{reverse, reverse-append, reverse-reverse}

-- A space or a tab.
abbrev pub IsSpace : ℕ → Type 0
IsSpace c = (c ≡ 32) ⊎ (c ≡ 9)

abbrev pub IsDigit : ℕ → Type 0
IsDigit c = (48 ≤ c) × (c ≤ 57)

All-append : (P : ℕ → Type 0) (xs ys : Text) → All P xs → All P ys → All P (xs ++ ys)
All-append P [] ys h k = k
All-append P (x ∷ xs) ys (p, h) k = (p, All-append P xs ys h k)

All-reverse : (P : ℕ → Type 0) (xs : Text) → All P xs → All P (reverse xs)
All-reverse P [] h = tt
All-reverse P (x ∷ xs) (p, h) =
    subst (All P) (sym (reverse-append (x ∷ []) xs))
      (All-append P (reverse xs) (x ∷ []) (All-reverse P xs h) (p, tt))

skip_spaces-front : (s : Text) → (front : Text) × (s ≡ front ++ skip_spaces s) × All IsSpace front
unfolding skip_spaces
skip_spaces-front [] = ([], refl, tt)
skip_spaces-front (c ∷ s) = elim (Bool-cases (is_space c)) [
  | inl e ↦
      let (front, same, spaces) = skip_spaces-front s in
      let kept : skip_spaces (c ∷ s) ≡ skip_spaces s = ground (arith, e) in
      (c ∷ front, ap (λ t. c ∷ t) (same ∙ ap (λ t. front ++ t) (sym kept)), (ground arith, spaces))
  | inr e ↦ ([], ground (arith, e), tt)
]

skip_spaces-append : (front s : Text) → All IsSpace front → skip_spaces (front ++ s) ≡ skip_spaces s
unfolding skip_spaces
skip_spaces-append [] s h = refl
skip_spaces-append (c ∷ front) s (p, h) = ground (arith, skip_spaces-append front s h)

skip_spaces-digits :
    (digits rest : Text)
    → digits ≢ []
    → All IsDigit digits
    → skip_spaces (digits ++ rest) ≡ digits ++ rest
unfolding skip_spaces
skip_spaces-digits [] rest n h = absurd (n refl)
skip_spaces-digits (c ∷ digits) rest n (p, h) = ground arith

append_nil : (s : Text) → s ++ [] ≡ s
append_nil [] = refl
append_nil (c ∷ s) = ap (λ t. c ∷ t) (append_nil s)

-- What is cut off is spaces on both sides.
pub trim-around :
    (s : Text)
    → (front : Text) × (back : Text) × (s ≡ front ++ (trim s ++ back))
      × All IsSpace front
      × All IsSpace back
unfolding trim
trim-around s =
    let (front, same, spaces) = skip_spaces-front s in
    let t = reverse (skip_spaces s) in
    let (back, same_back, spaces_back) = skip_spaces-front t in
    let rest : skip_spaces s ≡ trim s ++ reverse back =
      sym (reverse-reverse (skip_spaces s))
      ∙ ap reverse same_back
      ∙ reverse-append back (skip_spaces t) in
    (
      front,
      reverse back,
      same ∙ ap (λ u. front ++ u) rest,
      spaces,
      All-reverse IsSpace back spaces_back,
    )

reverse_ne_nil : (s : Text) → s ≢ [] → reverse s ≢ []
reverse_ne_nil s n e = n (sym (reverse-reverse s) ∙ ap reverse e)

-- Digits with spaces around them are what is left.
pub trim-digits :
    (front digits back : Text)
    → All IsSpace front
    → digits ≢ []
    → All IsDigit digits
    → All IsSpace back
    → trim (front ++ (digits ++ back)) ≡ digits
unfolding trim
trim-digits front digits back spaces n plain spaces_back =
    let first : skip_spaces (front ++ (digits ++ back)) ≡ digits ++ back =
      skip_spaces-append front (digits ++ back) spaces ∙ skip_spaces-digits digits back n plain in
    let turned : reverse (skip_spaces (front ++ (digits ++ back)))
        ≡ reverse back ++ reverse digits =
      ap reverse first ∙ reverse-append digits back in
    let left : skip_spaces (reverse back ++ reverse digits) ≡ reverse digits =
      skip_spaces-append (reverse back) (reverse digits) (All-reverse IsSpace back spaces_back)
      ∙ ap skip_spaces (sym (append_nil (reverse digits)))
      ∙ skip_spaces-digits (reverse digits) [] (reverse_ne_nil digits n)
          (All-reverse IsDigit digits plain)
      ∙ append_nil (reverse digits) in
    ap (λ t. reverse (skip_spaces t)) turned ∙ ap reverse left ∙ reverse-reverse digits

-- The parts with a comma between each two.
abbrev pub join_commas : List Text → Text
join_commas [] = []
join_commas (p ∷ []) = p
join_commas (p ∷ (q ∷ ps)) = p ++ b',' ∷ join_commas (q ∷ ps)

abbrev pub IsCommaFree : Text → Type 0
IsCommaFree p = contains b',' p ≡ false

prepend-join : (c : ℕ) (ss : List Text) → join_commas (prepend c ss) ≡ c ∷ join_commas ss
unfolding prepend
prepend-join c [] = refl
prepend-join c (s ∷ []) = refl
prepend-join c (s ∷ (t ∷ ss)) = refl

join_nil : (ss : List Text) → ss ≢ [] → join_commas ([] ∷ ss) ≡ b',' ∷ join_commas ss
join_nil [] n = absurd (n refl)
join_nil (s ∷ ss) n = refl

prepend_ne_nil : (c : ℕ) (ss : List Text) → prepend c ss ≢ []
unfolding prepend
prepend_ne_nil c [] e = ground (arith, e)
prepend_ne_nil c (s ∷ ss) e = ground (arith, e)

pub split_commas_ne_nil : (s : Text) → split_commas s ≢ []
unfolding split_commas
split_commas_ne_nil [] e = ground (arith, e)
split_commas_ne_nil (c ∷ s) e = elim (Bool-cases (c == b',')) [
  | inl comma ↦ ground (arith, comma, e)
  | inr other ↦ prepend_ne_nil c (split_commas s) (ground (arith, other, e))
]

pub join_commas-split_commas : (s : Text) → join_commas (split_commas s) ≡ s
unfolding split_commas
join_commas-split_commas [] = refl
join_commas-split_commas (c ∷ s) = elim (Bool-cases (c == b',')) [
  | inl comma ↦
      let parts : split_commas (c ∷ s) ≡ [] ∷ split_commas s = ground (arith, comma) in
      let same : b',' ≡ c = ground (arith, comma) in
      ap join_commas parts
      ∙ join_nil (split_commas s) (split_commas_ne_nil s)
      ∙ ap (λ t. b',' ∷ t) (join_commas-split_commas s)
      ∙ ap (λ x. x ∷ s) same
  | inr other ↦
      let parts : split_commas (c ∷ s) ≡ prepend c (split_commas s) = ground (arith, other) in
      ap join_commas parts
      ∙ prepend-join c (split_commas s)
      ∙ ap (λ t. c ∷ t) (join_commas-split_commas s)
]

prepend-IsCommaFree :
    (c : ℕ) (ss : List Text)
    → (c == b',') ≡ false
    → All IsCommaFree ss
    → All IsCommaFree (prepend c ss)
unfolding prepend
prepend-IsCommaFree c [] h k = (ground arith, tt)
prepend-IsCommaFree c (s ∷ ss) h (p, k) = (ground arith, k)

pub split_commas-IsCommaFree : (s : Text) → All IsCommaFree (split_commas s)
unfolding split_commas
split_commas-IsCommaFree [] = (refl, tt)
split_commas-IsCommaFree (c ∷ s) = elim (Bool-cases (c == b',')) [
  | inl comma ↦ rw comma (refl, split_commas-IsCommaFree s)
  | inr other ↦ rw other (prepend-IsCommaFree c (split_commas s) other (split_commas-IsCommaFree s))
]

split_commas_one : (p : Text) → IsCommaFree p → split_commas p ≡ p ∷ []
unfolding split_commas prepend
split_commas_one [] h = refl
split_commas_one (c ∷ p) h =
    let other : (c == b',') ≡ false = ground arith in
    rw other (ap (prepend c) (split_commas_one p (ground arith)))

split_commas-append :
    (p rest : Text) → IsCommaFree p → split_commas (p ++ b',' ∷ rest) ≡ p ∷ split_commas rest
unfolding split_commas prepend
split_commas-append [] rest h = refl
split_commas-append (c ∷ p) rest h =
    let other : (c == b',') ≡ false = ground arith in
    rw other (ap (prepend c) (split_commas-append p rest (ground arith)))

pub split_commas-join_commas :
    (parts : List Text)
    → parts ≢ []
    → All IsCommaFree parts
    → split_commas (join_commas parts) ≡ parts
split_commas-join_commas [] n h = absurd (n refl)
split_commas-join_commas (p ∷ []) n (h, k) = split_commas_one p h
split_commas-join_commas (p ∷ (q ∷ ps)) n (h, k) =
    split_commas-append p (join_commas (q ∷ ps)) h
    ∙ ap (λ qs. p ∷ qs) (split_commas-join_commas (q ∷ ps) (λ e. ground (arith, e)) k)
