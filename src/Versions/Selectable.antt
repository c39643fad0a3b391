-- ===== src/Versions/Selectable.antt =====
-- packages/accelerator/core/src/versions/version_policy.rs: the gate on the version that a remote
-- page asks for.
use aztec_accelerator.Prelude.{
  ◌≡◌, ◌↔◌, inl, inr, true, false, not, Option, none, some, List, [], contains, ◌==◌, nat_eq,
  list_eq, if◌then◌else◌, arith, Option-cases,
}
use aztec_accelerator.Prelude.Texts.{Text, text_eq_iff}
use aztec_accelerator.SemVer.{SemVer}

pub data VersionRejection : Type 0 where
  not_semver has_build_metadata known_vulnerable : VersionRejection

-- The revocation list that ships, which is empty.
abbrev pub known_vulnerable_versions : List Text
known_vulnerable_versions = []

module _ (sv : SemVer) where
  open sv use {Version, parse, to_string, build_is_empty}

  check_parsed : Version → Text → List Text → Option VersionRejection
  check_parsed v requested denylist =
      if not (to_string v == requested)
      then some not_semver
      else if not (build_is_empty v)
      then some has_build_metadata
      else if contains requested denylist
      then some known_vulnerable
      else none

  -- `none` is `Ok(())`.
  unfoldable pub check_version_against : Text → List Text → Option VersionRejection
  unfolding check_parsed
  check_version_against requested denylist = elim (parse requested) [
    | none ↦ some not_semver
    | some v ↦ check_parsed v requested denylist
  ]

  unfoldable pub check_version_selectable : Text → Option VersionRejection
  unfolding check_version_against
  check_version_selectable requested = check_version_against requested known_vulnerable_versions

  -- A requested version passes the gate exactly if it is the canonical spelling of a semantic version
  -- without build metadata and is not on the revocation list; and with the list that ships every
  -- such version passes, since there is no version floor.
  pub check_version_exact :
      (requested : Text) (denylist : List Text)
      → ((check_version_against requested denylist ≡ none) ↔ (
          (v : Version) × (parse requested ≡ some v)
          × (to_string v ≡ requested)
          × (build_is_empty v ≡ true)
          × (contains requested denylist ≡ false)))
        × ((v : Version)
            → parse requested ≡ some v
            → to_string v ≡ requested
            → build_is_empty v ≡ true
            → check_version_selectable requested ≡ none)
  unfolding check_version_selectable
  check_version_exact requested denylist = (
    (
      λ h. elim (Option-cases (parse requested)) [
        | inl bad ↦ absurd (ground arith)
        | inr (v, good) ↦
            let same = text_eq_iff (to_string v) requested in
            (v, good, ground arith, ground arith, ground arith)
      ],
      λ w.
          let (v, good, spelled, plain, free) = w in
          ground (arith, text_eq_iff (to_string v) requested),
    ),
    λ v good spelled plain. ground (arith, text_eq_iff (to_string v) requested),
  )
