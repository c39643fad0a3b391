-- ===== src/Prelude/Utf8.antt =====
-- `String::from_utf8` on bytes, and `str::trim` with its halves on the bytes of a text.
pub mod Trailing
use Prim.Native.Nat.{ℕ, zero, suc}
use mathlib.Core.Bool.{Bool, true, false, not, ◌&&◌, ◌||◌}
use mathlib.Core.Option.{Option, none, some}
use mathlib.Core.Path.{◌≡◌, sym, ap, ◌∙◌}
use mathlib.Core.List.{List, [], ◌∷◌, ◌++◌, map, reverse, reverse-append, reverse-reverse}
use native.Mathlib.Omega.{arith}
use aztec_accelerator.Prelude.Lists.{length}
use aztec_accelerator.Prelude.Tests.{ltb, leb, if◌then◌else◌}
use aztec_accelerator.Prelude.Equality.{◌==◌, nat_eq}
use aztec_accelerator.Prelude.Texts.{Text, starts_with}

-- What a first byte asks for: how many bytes follow it, and the bounds of the next of them.
lead : ℕ → Option (ℕ × ℕ × ℕ)
lead c =
    if ltb c 128
    then some (0, 128, 191)
    else if ltb c 194
    then none
    else if ltb c 224
    then some (1, 128, 191)
    else if c == 224
    then some (2, 160, 191)
    else if c == 237
    then some (2, 128, 159)
    else if ltb c 240
    then some (2, 128, 191)
    else if c == 240
    then some (3, 144, 191)
    else if ltb c 244
    then some (3, 128, 191)
    else if c == 244
    then some (3, 128, 143)
    else none

scan : ℕ → ℕ → ℕ → Text → Bool
scan k lo hi [] = k == 0
scan zero lo hi (c ∷ s) = elim (lead c) [ none ↦ false | some (k, l, h) ↦ scan k l h s ]
scan (suc k) lo hi (c ∷ s) = let rest = scan k 128 191 s in (leb lo c && leb c hi) && rest

unfoldable pub is_utf8 : Text → Bool
unfolding scan lead
is_utf8 s = scan 0 128 191 s

abbrev pub is_white : ℕ → Bool
is_white c = c == 32 || (leb 9 c && leb c 13)

-- U+2000 to U+200A, U+2028, U+2029 and U+202F share their first two bytes.
abbrev pub general : List ℕ
general =
    128
    ∷ (129
        ∷ (130
            ∷ (131
                ∷ (132
                    ∷ (133 ∷ (134 ∷ (135 ∷ (136 ∷ (137 ∷ (138 ∷ (168 ∷ (169 ∷ (175 ∷ [])))))))))))))

abbrev pub general_white : ℕ → Text
general_white c = 226 ∷ (128 ∷ (c ∷ []))

-- The white space of Unicode outside ASCII, in UTF-8.
abbrev pub wide_white : List Text
wide_white =
    (194 ∷ (133 ∷ []))
    ∷ ((194 ∷ (160 ∷ []))
        ∷ ((225 ∷ (154 ∷ (128 ∷ [])))
            ∷ ((226 ∷ (129 ∷ (159 ∷ [])))
                ∷ ((227 ∷ (128 ∷ (128 ∷ []))) ∷ map general_white general))))

-- How long is the first of the prefixes that the text has?
pub prefix_length : List Text → Text → ℕ
prefix_length [] s = 0
prefix_length (w ∷ ws) s = if starts_with s w then length w else prefix_length ws s

-- The bytes of a white character that the text begins with; 0 if it begins with none.
pub white_width : List Text → Text → ℕ
unfolding prefix_length
white_width wide [] = 0
white_width wide (c ∷ s) =
    if is_white c then 1 else if ltb c 128 then 0 else prefix_length wide (c ∷ s)

pub skip_at : ℕ → Text → (ℕ → Text) → Text
skip_at zero s skip = s
skip_at (suc k) s skip = skip k

skip_white : List Text → ℕ → Text → Text
unfolding white_width skip_at
skip_white wide k [] = []
skip_white wide (suc k) (c ∷ s) = skip_white wide k s
skip_white wide zero (c ∷ s) = skip_at (white_width wide (c ∷ s)) (c ∷ s) (λ k. skip_white wide k s)

-- `str::trim_start`, `str::trim_end` and `str::trim`
unfoldable pub trim_start : Text → Text
unfolding skip_white
trim_start s = skip_white wide_white 0 s

unfoldable pub trim_end : Text → Text
unfolding skip_white
trim_end s = reverse (skip_white (map reverse wide_white) 0 (reverse s))

unfoldable pub trim : Text → Text
unfolding trim_start trim_end
trim s = trim_end (trim_start s)

-- A character of ASCII that is no white space.
abbrev pub is_solid : ℕ → Bool
is_solid c = ltb c 128 && not (is_white c)

skip_white-solid :
    (wide : List Text) (c : ℕ) (s : Text) → is_solid c ≡ true → skip_white wide 0 (c ∷ s) ≡ c ∷ s
unfolding skip_white white_width skip_at
skip_white-solid wide c s h = ground arith

pub trim_start-solid : (c : ℕ) (s : Text) → is_solid c ≡ true → trim_start (c ∷ s) ≡ c ∷ s
unfolding trim_start
trim_start-solid c s h = skip_white-solid wide_white c s h

pub trim_end-solid : (s : Text) (c : ℕ) → is_solid c ≡ true → trim_end (s ++ c ∷ []) ≡ s ++ c ∷ []
unfolding trim_end
trim_end-solid s c h =
    rw (reverse-append s (c ∷ []), skip_white-solid (map reverse wide_white) c (reverse s) h)
      (sym (ap reverse (reverse-append s (c ∷ []))) ∙ reverse-reverse (s ++ c ∷ []))

pub trim-solid :
    (c : ℕ) (s : Text) (d : ℕ)
    → is_solid c ≡ true
    → is_solid d ≡ true
    → trim (c ∷ (s ++ d ∷ [])) ≡ c ∷ (s ++ d ∷ [])
unfolding trim
trim-solid c s d h e = rw (trim_start-solid c (s ++ d ∷ []) h) (trim_end-solid (c ∷ s) d e)
