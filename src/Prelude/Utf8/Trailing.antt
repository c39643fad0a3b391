-- ===== src/Prelude/Utf8/Trailing.antt =====
-- `str::trim` and a carriage return at the end.
use Prim.Native.Nat.{ℕ, zero, suc}
use mathlib.Core.Path.{◌≡◌, refl, sym, subst, ap, ◌∙◌}
use mathlib.Core.Logic.{◌⊎◌, inl, inr}
use mathlib.Core.Bool.{Bool, true, not}
use mathlib.Core.List.{List, [], ◌∷◌, ◌++◌, reverse-append}
use native.Mathlib.Omega.{arith}
use aztec_accelerator.Prelude.Equality.{nat_eq}
use aztec_accelerator.Prelude.Lists.{all, contains}
use aztec_accelerator.Prelude.Texts.{Text, starts_with}
use aztec_accelerator.Prelude.Utf8.{
  wide_white, prefix_length, white_width, skip_at, skip_white, trim_start, trim_end, trim,
}

abbrev pub carriage_return : Text
carriage_return = b'\r' ∷ []

abbrev free_of_return : Text → Bool
free_of_return w = not (contains b'\r' w)

starts_with-return :
    (s w : Text) → free_of_return w ≡ true → starts_with (s ++ carriage_return) w ≡ starts_with s w
starts_with-return s [] h = refl
starts_with-return [] (p ∷ ps) h = ground arith
starts_with-return (c ∷ s) (p ∷ ps) h = ground (arith, starts_with-return s ps)

prefix_length-return :
    (ws : List Text) (s : Text)
    → all free_of_return ws ≡ true
    → prefix_length ws (s ++ carriage_return) ≡ prefix_length ws s
unfolding prefix_length
prefix_length-return [] s h = refl
prefix_length-return (w ∷ ws) s h =
    ground (arith, starts_with-return s w, prefix_length-return ws s)

white_width-return :
    (ws : List Text) (c : ℕ) (s : Text)
    → all free_of_return ws ≡ true
    → white_width ws (c ∷ (s ++ carriage_return)) ≡ white_width ws (c ∷ s)
unfolding white_width
white_width-return ws c s h = rw (prefix_length-return ws (c ∷ s) h) refl

-- The text is all white, or the carriage return stays behind what is not.
abbrev Trails : Text → Text → Type 0
Trails t s = (t ≡ s ++ carriage_return) ⊎ ((t ≡ []) × (s ≡ []))

skip_at-Trails :
    (n : ℕ) (t s : Text) (f g : ℕ → Text)
    → Trails t s
    → ((k : ℕ) → Trails (f k) (g k))
    → Trails (skip_at n t f) (skip_at n s g)
unfolding skip_at
skip_at-Trails zero t s f g h again = h
skip_at-Trails (suc k) t s f g h again = again k

skip_white-Trails :
    (ws : List Text) (k : ℕ) (s : Text)
    → all free_of_return ws ≡ true
    → Trails (skip_white ws k (s ++ carriage_return)) (skip_white ws k s)
unfolding skip_white skip_at white_width
skip_white-Trails ws zero [] h = inr (refl, refl)
skip_white-Trails ws (suc k) [] h = inr (refl, refl)
skip_white-Trails ws (suc k) (c ∷ s) h = skip_white-Trails ws k s h
skip_white-Trails ws zero (c ∷ s) h =
    subst
      (λ n.
        Trails
          (skip_at n (c ∷ (s ++ carriage_return)) (λ k. skip_white ws k (s ++ carriage_return)))
          (skip_at (white_width ws (c ∷ s)) (c ∷ s) (λ k. skip_white ws k s)))
      (sym (white_width-return ws c s h))
      (skip_at-Trails (white_width ws (c ∷ s)) (c ∷ (s ++ carriage_return)) (c ∷ s)
        (λ k. skip_white ws k (s ++ carriage_return)) (λ k. skip_white ws k s) (inl refl)
        (λ k. skip_white-Trails ws k s h))

trim_end-return : (s : Text) → trim_end (s ++ carriage_return) ≡ trim_end s
unfolding trim_end skip_white white_width skip_at
trim_end-return s = rw (reverse-append s carriage_return) refl

pub trim-return : (s : Text) → trim (s ++ carriage_return) ≡ trim s
unfolding trim trim_start
trim-return s = elim (skip_white-Trails wide_white 0 s refl) [
  | inl e ↦ ap trim_end e ∙ trim_end-return (trim_start s)
  | inr (e, f) ↦ ap trim_end (e ∙ sym f)
]
