-- ===== src/Server/ContentLength/Exact.antt =====
-- What `reject_declared_oversize` of packages/accelerator/core/src/server/prove.rs lets on.
use aztec_accelerator.Prelude.{
  ℕ, ◌≤◌, ◌≡◌, ◌≢◌, ◌↔◌, ◌⊎◌, inl, inr, ap, sym, subst, ◌∙◌, false, Option, none, some, List, [],
  ◌∷◌, ◌++◌, All,
}
use aztec_accelerator.Prelude.Texts.{Text}
use aztec_accelerator.Prelude.Decimal.{decimal_value}
use aztec_accelerator.Server.ContentLength.{
  max_body_size, trim, split_commas, reject_declared_oversize,
}
use aztec_accelerator.Server.ContentLength.Elements.{
  IsSpace, IsDigit, IsCommaFree, join_commas, trim-around, trim-digits, split_commas_ne_nil,
  join_commas-split_commas, split_commas-IsCommaFree, split_commas-join_commas,
}
use aztec_accelerator.Server.ContentLength.Scan.{TrimmedLength, AllTrimmed, scanned_exact}

-- A non-empty run of ASCII digits that stands for n, with spaces and tabs around it.
abbrev pub DeclaresLength : ℕ → Text → Type 0
DeclaresLength n part =
    (front : Text) × (digits : Text) × (back : Text) × (part ≡ front ++ (digits ++ back))
    × All IsSpace front
    × All IsSpace back
    × (digits ≢ [])
    × All IsDigit digits
    × (decimal_value 0 digits ≡ n)

-- The text is parts with commas between them, each of which declares the length n.
abbrev pub DeclaresAll : ℕ → Text → Type 0
DeclaresAll n s =
    (parts : List Text) × (parts ≢ [])
    × (s ≡ join_commas parts)
    × All IsCommaFree parts
    × All (DeclaresLength n) parts

-- Every value is readable and declares the length n in all its parts.
abbrev pub AllDeclare : ℕ → List (Option Text) → Type 0
AllDeclare n [] = Unit
AllDeclare n (none ∷ values) = ⊥
AllDeclare n (some s ∷ values) = DeclaresAll n s × AllDeclare n values

TrimmedLength-DeclaresLength : (n : ℕ) (part : Text) → TrimmedLength n part → DeclaresLength n part
TrimmedLength-DeclaresLength n part (filled, plain, value) =
    let (front, back, same, spaces, spaces_back) = trim-around part in
    (front, trim part, back, same, spaces, spaces_back, filled, plain, value)

DeclaresLength-TrimmedLength : (n : ℕ) (part : Text) → DeclaresLength n part → TrimmedLength n part
DeclaresLength-TrimmedLength n part
      (front, digits, back, same, spaces, spaces_back, filled, plain, value) =
    let left : trim part ≡ digits =
      ap trim same ∙ trim-digits front digits back spaces filled plain spaces_back in
    subst (λ t. (t ≢ []) × All IsDigit t × (decimal_value 0 t ≡ n)) (sym left)
      (filled, plain, value)

All-map :
    (P Q : Text → Type 0) (parts : List Text)
    → ((part : Text) → P part → Q part)
    → All P parts
    → All Q parts
All-map P Q [] f h = tt
All-map P Q (part ∷ parts) f (h, k) = (f part h, All-map P Q parts f k)

AllTrimmed-AllDeclare :
    (n : ℕ) (values : List (Option Text)) → AllTrimmed n values → AllDeclare n values
AllTrimmed-AllDeclare n [] h = tt
AllTrimmed-AllDeclare n (none ∷ values) h = h
AllTrimmed-AllDeclare n (some s ∷ values) (h, k) = (
  (
    split_commas s,
    split_commas_ne_nil s,
    sym (join_commas-split_commas s),
    split_commas-IsCommaFree s,
    All-map (TrimmedLength n) (DeclaresLength n) (split_commas s) (TrimmedLength-DeclaresLength n)
        h,
  ),
  AllTrimmed-AllDeclare n values k,
)

AllDeclare-AllTrimmed :
    (n : ℕ) (values : List (Option Text)) → AllDeclare n values → AllTrimmed n values
AllDeclare-AllTrimmed n [] h = tt
AllDeclare-AllTrimmed n (none ∷ values) h = h
AllDeclare-AllTrimmed n (some s ∷ values) ((parts, filled, joined, free, all_n), k) =
    let same : split_commas s ≡ parts =
      ap split_commas joined ∙ split_commas-join_commas parts filled free in
    (
      subst (All (TrimmedLength n)) (sym same) (
          All-map (DeclaresLength n) (TrimmedLength n) parts (DeclaresLength-TrimmedLength n)
            all_n),
      AllDeclare-AllTrimmed n values k,
    )

-- The request is let on to its body exactly if it has no Content-Length at all, or there is one
-- number, at most the cap of 50 MiB, such that each value is readable as text and consists of one or
-- more parts with commas between them, each a non-empty run of ASCII digits alone, without a sign,
-- with that decimal value, and with nothing but spaces and tabs around it.
pub reject_declared_oversize_exact :
    (values : List (Option Text))
    → (reject_declared_oversize values ≡ false)
      ↔ ((values ≡ []) ⊎ ((n : ℕ) × (n ≤ max_body_size) × AllDeclare n values))
reject_declared_oversize_exact values =
    let (sound, complete) = scanned_exact values in
    (
      λ h. elim (sound h) [
        | inl bare ↦ inl bare
        | inr (n, le, same) ↦ inr (n, le, AllTrimmed-AllDeclare n values same)
      ],
      λ w. complete (elim w [
        | inl bare ↦ inl bare
        | inr (n, le, same) ↦ inr (n, le, AllDeclare-AllTrimmed n values same)
      ]),
    )
