-- ===== src/Server/Host/Grammar.antt =====
-- What packages/accelerator/core/src/server/host.rs asks of the raw authority and of a last dot, as
-- descriptions that do not run.
use aztec_accelerator.Prelude.{
  ℕ, ◌≡◌, ◌≢◌, ◌⊎◌, inl, inr, refl, ap, sym, ◌∙◌, true, false, some, [], ◌∷◌, ◌++◌, contains, ◌==◌,
  nat_eq, arith, Option-cases, Bool-cases,
}
use aztec_accelerator.Prelude.Texts.{Text}
use aztec_accelerator.Server.Host.{
  strip_suffix, behind_bracket, bracket_ok, starts_with_colon, strip_dot,
}

pub strip_suffix_sound : (c : ℕ) (s : Text) {t : Text} → strip_suffix c s ≡ some t → s ≡ t ++ c ∷ []
unfolding strip_suffix
strip_suffix_sound c [] h = absurd (ground arith)
strip_suffix_sound c (d ∷ []) h = ground arith
strip_suffix_sound c (d ∷ (e ∷ s)) {t} h = elim (Option-cases (strip_suffix c (e ∷ s))) [
  | inl bad ↦ absurd (ground arith)
  | inr (u, good) ↦ ground (arith, strip_suffix_sound c (e ∷ s) good)
]

strip_suffix-append : (c : ℕ) (t : Text) → strip_suffix c (t ++ c ∷ []) ≡ some t
unfolding strip_suffix
strip_suffix-append c [] = ground arith
strip_suffix-append c (d ∷ []) = ground arith
strip_suffix-append c (d ∷ (e ∷ t)) = ground (arith, strip_suffix-append c (e ∷ t))

-- Behind the first closing bracket, if there is one, a colon follows at once.
abbrev pub IsPortBehindBracket : Text → Type 0
IsPortBehindBracket authority =
    (before rest : Text)
    → authority ≡ before ++ b']' ∷ rest
    → contains b']' before ≡ false
    → (port : Text) × (rest ≡ b':' ∷ port)

-- The host h is the given one without its last dot, or the given one where that has no last dot.
abbrev pub IsUndotted : Text → Text → Type 0
IsUndotted host h =
    (host ≡ h ++ b'.' ∷ []) ⊎ ((h ≡ host) × ((front : Text) → host ≢ front ++ b'.' ∷ []))

behind_bracket-append :
    (before rest : Text)
    → contains b']' before ≡ false
    → behind_bracket (before ++ b']' ∷ rest) ≡ some rest
unfolding behind_bracket
behind_bracket-append [] rest h = ground arith
behind_bracket-append (c ∷ before) rest h = ground (arith, behind_bracket-append before rest)

behind_bracket_sound :
    (s rest : Text)
    → behind_bracket s ≡ some rest
    → (before : Text) × (s ≡ before ++ b']' ∷ rest) × (contains b']' before ≡ false)
unfolding behind_bracket
behind_bracket_sound [] rest h = absurd (ground arith)
behind_bracket_sound (c ∷ s) rest h = elim (Bool-cases (c == b']')) [
  | inl e ↦ ([], ground (arith, e), refl)
  | inr e ↦
      let (before, same, first) = behind_bracket_sound s rest (ground (arith, e)) in
      (c ∷ before, ap (λ t. c ∷ t) same, ground (arith, e))
]

colon_cases : (s : Text) → starts_with_colon s ≡ true → (port : Text) × (s ≡ b':' ∷ port)
colon_cases [] h = absurd (ground arith)
colon_cases (c ∷ s) h = (s, ground arith)

pub bracket_ok_sound : (s : Text) → bracket_ok s ≡ true → IsPortBehindBracket s
unfolding bracket_ok
bracket_ok_sound s h before rest e first =
    let found : behind_bracket s ≡ some rest =
      ap behind_bracket e ∙ behind_bracket-append before rest first in
    colon_cases rest (ground (arith, found))

pub bracket_ok_complete : (s : Text) → IsPortBehindBracket s → bracket_ok s ≡ true
unfolding bracket_ok
bracket_ok_complete s f = elim (Option-cases (behind_bracket s)) [
  | inl absent ↦ ground (arith, absent)
  | inr (rest, found) ↦
      let (before, same, first) = behind_bracket_sound s rest found in
      let (port, e) = f before rest same first in ground (arith, found, e)
]

pub strip_dot-IsUndotted : (host : Text) → IsUndotted host (strip_dot host)
unfolding strip_dot
strip_dot-IsUndotted host = elim (Option-cases (strip_suffix b'.' host)) [
  | inl kept ↦ inr (
    ground (arith, kept),
    λ front e. ground (arith, kept, ap (strip_suffix b'.') e ∙ strip_suffix-append b'.' front),
  )
  | inr (t, cut) ↦
      let same : strip_dot host ≡ t = ground (arith, cut) in
      inl (strip_suffix_sound b'.' host cut ∙ ap (λ u. u ++ b'.' ∷ []) (sym same))
]

pub IsUndotted-strip_dot : (host h : Text) → IsUndotted host h → strip_dot host ≡ h
unfolding strip_dot
IsUndotted-strip_dot host h (inl e) =
    ground (arith, ap (strip_suffix b'.') e ∙ strip_suffix-append b'.' h)
IsUndotted-strip_dot host h (inr (same, undotted)) = elim (Option-cases (strip_suffix b'.' host)) [
  | inl kept ↦ ground (arith, kept, same)
  | inr (t, cut) ↦ absurd (undotted t (strip_suffix_sound b'.' host cut))
]
