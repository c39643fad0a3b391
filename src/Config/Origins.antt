-- ===== src/Config/Origins.antt =====
-- packages/accelerator/core/src/config.rs: the lenient reader of the approved origins.
use aztec_accelerator.Prelude.{
  ◌≡◌, sym, ap, ◌∙◌, Bool, false, Option, none, some, List, [], ◌∷◌, ◌++◌, contains, nat_eq,
  list_eq, if◌then◌else◌,
}
use mathlib.Core.List.{append_assoc, append-nil}
use aztec_accelerator.Prelude.Texts.{Text}
use aztec_accelerator.Authorization.Origin.{UrlParser, canonicalize_origin}

module _ (parse : UrlParser) where
  -- What one entry does to the list: what is no origin is dropped, and so is what is there already.
  taken : List Text → Option Text → List Text
  taken out none = out
  taken out (some c) = if contains c out then out else out ++ c ∷ []

  origins_loop : List Text → List Text → List Text
  unfolding taken
  origins_loop out [] = out
  origins_loop out (entry ∷ entries) =
      origins_loop (taken out (canonicalize_origin parse entry)) entries

  unfoldable pub de_approved_origins : List Text → List Text
  unfolding origins_loop
  de_approved_origins raw = origins_loop [] raw

  -- Canonical entries, none of which is in the list before it.
  abbrev Clean : List Text → List Text → Type 0
  Clean out [] = Unit
  Clean out (e ∷ es) =
      (canonicalize_origin parse e ≡ some e) × (contains e out ≡ false) × Clean (out ++ e ∷ []) es

  origins_loop-Clean : (out es : List Text) → Clean out es → origins_loop out es ≡ out ++ es
  unfolding origins_loop taken
  origins_loop-Clean out [] h = sym (append-nil out)
  origins_loop-Clean out (e ∷ es) (canonical, new, rest) =
      ap (λ o. origins_loop (taken out o) es) canonical
      ∙ ap (λ (b : Bool). origins_loop (if b then out else out ++ e ∷ []) es) new
      ∙ origins_loop-Clean (out ++ e ∷ []) es rest
      ∙ append_assoc out (e ∷ []) es

  -- A list of canonical origins without repetition is read as it is.
  pub de_approved_origins-Clean : (es : List Text) → Clean [] es → de_approved_origins es ≡ es
  unfolding de_approved_origins
  de_approved_origins-Clean es h = origins_loop-Clean [] es h
