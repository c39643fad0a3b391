-- ===== src/Server/Header.antt =====
-- Request headers as packages/accelerator/core/src/server/ reads them: all values of one name, `none`
-- for a value that is not readable as text.
use aztec_accelerator.Prelude.{◌≡◌, ◌⊎◌, inl, inr, refl, Option, none, some, List, [], ◌∷◌, arith}
use aztec_accelerator.Prelude.Texts.{Text}

abbrev pub HeaderValues : Type 0
HeaderValues = List (Option Text)

-- `headers.get(…).and_then(|v| v.to_str().ok())`: the first value alone, if it is readable.
abbrev pub first_text : HeaderValues → Option Text
first_text [] = none
first_text (v ∷ values) = v

-- The first value is this text.
abbrev pub Shows : HeaderValues → Text → Type 0
Shows values v = (rest : HeaderValues) × (values ≡ some v ∷ rest)

-- There is no value, or the first one cannot be read.
abbrev pub IsUnseen : HeaderValues → Type 0
IsUnseen values = (values ≡ []) ⊎ ((rest : HeaderValues) × (values ≡ none ∷ rest))

pub first_text-none : (values : HeaderValues) → first_text values ≡ none → IsUnseen values
first_text-none [] h = inl refl
first_text-none (none ∷ rest) h = inr (rest, refl)
first_text-none (some v ∷ rest) h = absurd (ground arith)

pub none-first_text : (values : HeaderValues) → IsUnseen values → first_text values ≡ none
none-first_text [] h = refl
none-first_text (none ∷ rest) h = refl
none-first_text (some v ∷ rest) (inl e) = absurd (ground (arith, e))
none-first_text (some v ∷ rest) (inr (r, e)) = absurd (ground (arith, e))

pub first_text-some :
    (values : HeaderValues) (v : Text) → first_text values ≡ some v → Shows values v
first_text-some [] v h = absurd (ground arith)
first_text-some (none ∷ rest) v h = absurd (ground arith)
first_text-some (some u ∷ rest) v h = (rest, ground arith)

pub some-first_text :
    (values : HeaderValues) (v : Text) → Shows values v → first_text values ≡ some v
some-first_text values v (rest, e) = rw e refl
