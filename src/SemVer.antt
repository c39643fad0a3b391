-- ===== src/SemVer.antt =====
-- The crate `semver`, which the source uses and does not contain: its versions, its parser and
-- printer, and its order by precedence, with the documented behaviour that the code relies on.
pub mod Sample
use aztec_accelerator.Prelude.{◌≡◌, ◌⊎◌, Bool, true, false, Option, some}
use aztec_accelerator.Prelude.Texts.{Text}
use Prim.Native.Nat.{Ordering}

pub record SemVer : Type 1 where
  pub Version : Type 0
  -- Version::parse
  pub parse : Text → Option Version
  -- Version::to_string
  pub to_string : Version → Text
  -- Version::cmp_precedence
  pub cmp_precedence : Version → Version → Ordering
  -- BuildMetadata::is_empty
  pub build_is_empty : Version → Bool
  -- Display and FromStr are inverse to one another on versions.
  pub parse-to_string : (v : Version) → parse (to_string v) ≡ some v

-- `gt` of packages/accelerator/core/src/updater_state.rs
abbrev is_greater : Ordering → Bool
is_greater Ordering.gt = true
is_greater _ = false

module _ (sv : SemVer) where
  open sv use {Version, cmp_precedence}

  unfoldable pub gt : Version → Version → Bool
  gt a b = is_greater (cmp_precedence a b)

  -- Precedence is a strict order in which equal places are interchangeable (SemVer 2.0.0, section 11).
  pub record IsPrecedence : Type 0 where
    pub gt-asym : (a b : Version) → gt a b ≡ true → gt b a ≡ false
    pub gt-cotrans : (a b c : Version) → gt a c ≡ true → (gt a b ≡ true) ⊎ (gt b c ≡ true)
