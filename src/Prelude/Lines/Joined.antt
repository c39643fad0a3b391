-- ===== src/Prelude/Lines/Joined.antt =====
-- The lines of joined lines.
use Prim.Native.Nat.{ℕ}
use mathlib.Core.Path.{◌≡◌, refl, sym, ap, ◌∙◌}
use mathlib.Core.Logic.{◌⊎◌, inl, inr}
use mathlib.Core.Bool.{false}
use mathlib.Core.List.{List, [], ◌∷◌, ◌++◌}
use native.Mathlib.Omega.{arith}
use aztec_accelerator.Prelude.Tests.{Bool-cases}
use aztec_accelerator.Prelude.Equality.{◌==◌, nat_eq, eq_sound}
use aztec_accelerator.Prelude.Lists.{contains, All}
use aztec_accelerator.Prelude.Texts.{Text, starts_with}
use aztec_accelerator.Prelude.Lines.{newline, lead_line, lines}
use aztec_accelerator.Prelude.Utf8.{trim}
use aztec_accelerator.Prelude.Utf8.Trailing.{trim-return, carriage_return}

-- A text without a line feed.
abbrev pub OneLine : Text → Type 0
OneLine s = contains b'\n' s ≡ false

-- The line, or what is left of it without its carriage return.
abbrev Unreturned : Text → Text → Type 0
Unreturned l' l = (l' ≡ l) ⊎ (l ≡ l' ++ carriage_return)

lines-append_newline :
    (l s : Text)
    → OneLine l
    → (l' : Text) × (lines (l ++ (newline ++ s)) ≡ l' ∷ lines s) × Unreturned l' l
unfolding lines lead_line
lines-append_newline [] s h = ([], refl, inl refl)
lines-append_newline (c ∷ []) s h = elim (Bool-cases (c == b'\r')) [
  | inl e ↦ ([], rw (eq_sound c b'\r' e) refl, inr (ap (λ x. x ∷ []) (eq_sound c b'\r' e)))
  | inr e ↦ (c ∷ [], ground arith, inl refl)
]
lines-append_newline (c ∷ (d ∷ l)) s h =
    let (l', same, form) = lines-append_newline (d ∷ l) s (ground arith) in
    (
      c ∷ l',
      ground arith,
      elim form [ inl e ↦ inl (ap (λ x. c ∷ x) e) | inr e ↦ inr (ap (λ x. c ∷ x) e) ],
    )

pub lines-newline-trim :
    (l s : Text)
    → OneLine l
    → (l' : Text) × (lines (l ++ (newline ++ s)) ≡ l' ∷ lines s) × (trim l' ≡ trim l)
lines-newline-trim l s h =
    let (l', same, form) = lines-append_newline l s h in
    (l', same, elim form [ inl e ↦ ap trim e | inr e ↦ sym (ap trim e ∙ trim-return l') ])

pub lines-OneLine : (c : ℕ) (s : Text) → OneLine (c ∷ s) → lines (c ∷ s) ≡ (c ∷ s) ∷ []
unfolding lines lead_line
lines-OneLine c [] h = ground arith
lines-OneLine c (d ∷ s) h = ground (arith, lines-OneLine d s)

lead_line-OneLine :
    (c : ℕ) (ls : List Text)
    → (c == b'\n') ≡ false
    → All OneLine ls
    → All OneLine (lead_line (c ∷ []) ls)
unfolding lead_line
lead_line-OneLine c [] h all_one = (ground arith, tt)
lead_line-OneLine c (l ∷ ls) h (one, rest) = (ground arith, rest)

pub lines_are-OneLine : (s : Text) → All OneLine (lines s)
unfolding lines
lines_are-OneLine [] = tt
lines_are-OneLine (c ∷ s) =
    let rest = lines_are-OneLine s in
    elim (Bool-cases (c == b'\n')) [
      | inl e ↦ rw e (refl, rest)
      | inr e ↦ elim (Bool-cases (c == b'\r')) [
        | inl r ↦ elim (Bool-cases (starts_with s newline)) [
          | inl n ↦ rw (e, r, n) rest
          | inr n ↦ rw (e, r, n) (lead_line-OneLine c (lines s) e rest)
        ]
        | inr r ↦ rw (e, r) (lead_line-OneLine c (lines s) e rest)
      ]
    ]
