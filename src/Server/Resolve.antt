-- ===== src/Server/Resolve.antt =====
-- packages/accelerator/core/src/server/prove.rs: `resolve_version`. Whether the cached binary of a
-- version passes `verify_cached_bb` is what the file system answers: the argument `cached_ok`.
use aztec_accelerator.Prelude.{
  ◌≡◌, ◌≢◌, ◌↔◌, ◌⊎◌, inl, inr, refl, subst, sym, Bool, false, not, Option, none, some, ◌==◌,
  nat_eq, list_eq, if◌then◌else◌, arith, Option-cases, Bool-cases,
}
use aztec_accelerator.Prelude.Texts.{Text, codes, text_eq_iff}
use aztec_accelerator.SemVer.{SemVer}
use aztec_accelerator.Server.Error.{ProveError, invalid_version, version_not_allowed}
use aztec_accelerator.Versions.Name.{AztecVersion, parse}
use aztec_accelerator.Versions.Selectable.{VersionRejection, check_version_selectable}

-- DEFAULT_BB_VERSION
abbrev pub default_bb_version : Text
default_bb_version = codes "unknown"

pub record ResolvedVersion : Type 0 where
  pub version : Option AztecVersion
  pub needs_download : Bool

-- `Result<ResolvedVersion, ProveError>`
pub data Resolution : Type 0 where
  ok : ResolvedVersion → Resolution
  err : ProveError → Resolution

abbrev pub bundled_or_default : Option Text → Text
bundled_or_default none = default_bb_version
bundled_or_default (some v) = v

abbrev pub bundled_default : ResolvedVersion
bundled_default = record { version = none; needs_download = false }

module _ (sv : SemVer) where
  resolve_parsed : Option Text → Text → AztecVersion → (Text → Bool) → Resolution
  resolve_parsed bundled_version v version cached_ok = elim (check_version_selectable sv v) [
    | some reason ↦ err (version_not_allowed v reason)
    | none ↦
        if v == bundled_or_default bundled_version
        then ok bundled_default
        else ok (record { version = some version; needs_download = not (cached_ok v) })
  ]

  unfoldable pub resolve_version : Option Text → Option Text → (Text → Bool) → Resolution
  unfolding resolve_parsed
  resolve_version bundled_version none cached_ok = ok bundled_default
  resolve_version bundled_version (some v) cached_ok = elim (parse v) [
    | none ↦ err (invalid_version v)
    | some version ↦ resolve_parsed bundled_version v version cached_ok
  ]

  -- What a request is resolved to, each outcome with the exact condition under which it comes.
  abbrev pub ResolvesTo : Option Text → Option Text → (Text → Bool) → Resolution → Type 0
  ResolvesTo bundled requested cached_ok (ok rv) =
      ((rv ≡ bundled_default)
        × ((requested ≡ none)
            ⊎ ((v : Text) × (requested ≡ some v)
                × (parse v ≢ none)
                × (check_version_selectable sv v ≡ none)
                × (v ≡ bundled_or_default bundled))))
      ⊎ ((v : Text) × (version : AztecVersion) × (requested ≡ some v)
          × (parse v ≡ some version)
          × (check_version_selectable sv v ≡ none)
          × (v ≢ bundled_or_default bundled)
          × (rv ≡ record { version = some version; needs_download = not (cached_ok v) }))
  ResolvesTo bundled requested cached_ok (err e) =
      (v : Text) × (requested ≡ some v)
      × (((parse v ≡ none) × (e ≡ invalid_version v))
          ⊎ ((reason : VersionRejection) × (parse v ≢ none)
              × (check_version_selectable sv v ≡ some reason)
              × (e ≡ version_not_allowed v reason)))

  resolve_parsed_sound :
      (bundled : Option Text) (v : Text) (version : AztecVersion) (cached_ok : Text → Bool)
      → parse v ≡ some version
      → ResolvesTo bundled (some v) cached_ok (resolve_parsed bundled v version cached_ok)
  unfolding resolve_parsed
  resolve_parsed_sound bundled v version cached_ok good =
      elim (Option-cases (check_version_selectable sv v)) [
        | inr (reason, refused) ↦
            let run : resolve_parsed bundled v version cached_ok
                ≡ err (version_not_allowed v reason) =
              ground arith in
            subst (ResolvesTo bundled (some v) cached_ok) (sym run)
              (v, refl, inr (reason, (λ e. ground arith), refused, refl))
        | inl gate ↦ elim (Bool-cases (v == bundled_or_default bundled)) [
          | inl same ↦
              let run : resolve_parsed bundled v version cached_ok ≡ ok bundled_default =
                ground arith in
              let equal = (text_eq_iff v (bundled_or_default bundled)).0 same in
              subst (ResolvesTo bundled (some v) cached_ok) (sym run)
                (inl (refl, inr (v, refl, (λ e. ground arith), gate, equal)))
          | inr other ↦
              let chosen : ResolvedVersion = record {
                version = some version;
                needs_download = not (cached_ok v);
              } in
              let run : resolve_parsed bundled v version cached_ok ≡ ok chosen = ground arith in
              let differs : v ≢ bundled_or_default bundled =
                λ e. ground (arith, other, (text_eq_iff v (bundled_or_default bundled)).1 e) in
              subst (ResolvesTo bundled (some v) cached_ok) (sym run)
                (inr (v, version, refl, good, gate, differs, refl))
        ]
      ]

  resolve_version_sound :
      (bundled requested : Option Text) (cached_ok : Text → Bool)
      → ResolvesTo bundled requested cached_ok (resolve_version bundled requested cached_ok)
  unfolding resolve_version
  resolve_version_sound bundled none cached_ok = inl (refl, inl refl)
  resolve_version_sound bundled (some v) cached_ok = elim (Option-cases (parse v)) [
    | inl bad ↦
        let run : resolve_version bundled (some v) cached_ok ≡ err (invalid_version v) =
          ground arith in
        subst (ResolvesTo bundled (some v) cached_ok) (sym run) (v, refl, inl (bad, refl))
    | inr (version, good) ↦
        let run : resolve_version bundled (some v) cached_ok
            ≡ resolve_parsed bundled v version cached_ok =
          ground arith in
        subst (ResolvesTo bundled (some v) cached_ok) (sym run)
          (resolve_parsed_sound bundled v version cached_ok good)
  ]

  resolve_version_complete :
      (bundled requested : Option Text) (cached_ok : Text → Bool) (r : Resolution)
      → ResolvesTo bundled requested cached_ok r
      → resolve_version bundled requested cached_ok ≡ r
  unfolding resolve_version resolve_parsed
  resolve_version_complete bundled requested cached_ok (ok rv) (inl (default, inl absent)) =
      ground arith
  resolve_version_complete bundled requested cached_ok (ok rv)
        (inl (default, inr (v, named, valid, gate, same))) =
      elim (Option-cases (parse v)) [
        | inl bad ↦ absurd (valid bad)
        | inr (version, good) ↦ ground (arith, good, text_eq_iff v (bundled_or_default bundled))
      ]
  resolve_version_complete bundled requested cached_ok (ok rv)
        (inr (v, version, named, good, gate, other, chosen)) =
      ground (arith, text_eq_iff v (bundled_or_default bundled))
  resolve_version_complete bundled requested cached_ok (err e) (v, named, inl (bad, same)) =
      ground arith
  resolve_version_complete bundled requested cached_ok (err e)
        (v, named, inr (reason, valid, gate, same)) =
      elim (Option-cases (parse v)) [
        | inl bad ↦ absurd (valid bad)
        | inr (version, good) ↦ ground (arith, good)
      ]

  -- The bundled binary is chosen exactly if no version is requested, or if the requested name is
  -- valid, passes the gate and is the bundled version. Another valid name that passes the gate is
  -- chosen itself, to be downloaded exactly if its cached binary fails the integrity check. A name
  -- that is not valid, and a valid one that the gate refuses, are errors that say so: no refusal
  -- falls back to the bundled binary.
  pub resolve_version_exact :
      (bundled requested : Option Text) (cached_ok : Text → Bool) (r : Resolution)
      → (resolve_version bundled requested cached_ok ≡ r) ↔ ResolvesTo bundled requested cached_ok r
  resolve_version_exact bundled requested cached_ok r = (
    λ h.
        subst (ResolvesTo bundled requested cached_ok) h
          (resolve_version_sound bundled requested cached_ok),
    resolve_version_complete bundled requested cached_ok r,
  )
