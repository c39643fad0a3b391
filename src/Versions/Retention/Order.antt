-- ===== src/Versions/Retention/Order.antt =====
-- The order of sort keys in packages/accelerator/core/src/versions/version_policy.rs, described by
-- the first byte at which two texts differ.
use aztec_accelerator.Prelude.{
  ℕ, ◌≤◌, ◌<◌, ◌≡◌, ◌≢◌, ◌⊎◌, inl, inr, refl, ap, true, [], ◌∷◌, ◌++◌, ltb, nat_eq, list_eq, arith,
  Bool-cases,
}
use aztec_accelerator.Prelude.Texts.{Text, text_eq_iff}
use aztec_accelerator.Versions.Name.{AztecVersion, SortKey}
use aztec_accelerator.Versions.Retention.{text_leb, key_leb, older}

-- The first text is a prefix of the second, or has the smaller byte where they first differ.
abbrev pub TextBelow : Text → Text → Type 0
TextBelow s t =
    ((rest : Text) × (t ≡ s ++ rest))
    ⊎ ((common : Text) × (c : ℕ) × (d : ℕ) × (a : Text) × (b : Text) × (s ≡ common ++ c ∷ a)
        × (t ≡ common ++ d ∷ b)
        × (c < d))

-- The text decides where the texts differ, and the number where they are the same.
abbrev pub KeyBelow : SortKey → SortKey → Type 0
KeyBelow (s, m) (t, n) = ((s ≢ t) × TextBelow s t) ⊎ ((s ≡ t) × (m ≤ n))

TextBelow-cons : (c : ℕ) (s t : Text) → TextBelow s t → TextBelow (c ∷ s) (c ∷ t)
TextBelow-cons c s t (inl (rest, e)) = inl (rest, ap (λ u. c ∷ u) e)
TextBelow-cons c s t (inr (common, x, y, a, b, e, f, lt)) =
    inr (c ∷ common, x, y, a, b, ap (λ u. c ∷ u) e, ap (λ u. c ∷ u) f, lt)

text_leb-TextBelow : (s t : Text) → text_leb s t ≡ true → TextBelow s t
unfolding text_leb
text_leb-TextBelow [] t h = inl (t, refl)
text_leb-TextBelow (c ∷ s) [] h = absurd (ground arith)
text_leb-TextBelow (c ∷ s) (d ∷ t) h = elim (Bool-cases (ltb c d)) [
  | inl below ↦ inr ([], c, d, s, t, refl, refl, ground arith)
  | inr other ↦
      let same : c ≡ d = ground arith in
      rw same (TextBelow-cons d s t (text_leb-TextBelow s t (ground arith)))
]

pub older-KeyBelow : (a b : AztecVersion) → older a b ≡ true → KeyBelow a.sort_key b.sort_key
unfolding key_leb
older-KeyBelow a b h =
    let (s, m) = a.sort_key in
    let (t, n) = b.sort_key in ground (arith, text_leb-TextBelow s t, text_eq_iff s t)
