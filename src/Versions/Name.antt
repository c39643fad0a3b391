-- ===== src/Versions/Name.antt =====
-- packages/accelerator/core/src/versions/version_policy.rs: `is_valid_version`, `NetworkTier`,
-- `version_sort_key` and the value object `AztecVersion`. A version is read byte by byte: a byte
-- above 127 belongs to a character that is not ASCII, which the source refuses as well.
pub mod Grammar
use aztec_accelerator.Prelude.{
  ℕ, Bool, true, false, not, ◌&&◌, ◌||◌, Option, none, some, [], ◌∷◌, leb, length, all, ◌==◌,
  nat_eq, if◌then◌else◌,
}
use aztec_accelerator.Prelude.Texts.{
  Text, codes, starts_with, split_once, rsplit_once, is_alphanumeric,
}
use aztec_accelerator.Prelude.Numbers.{parse_u64}

pub data NetworkTier : Type 0 where
  nightly devnet testnet mainnet : NetworkTier

tier_of_prerelease : Text → NetworkTier
tier_of_prerelease pre =
    if starts_with pre (codes "nightly")
    then nightly
    else if starts_with pre (codes "devnet")
    then devnet
    else if starts_with pre (codes "rc")
    then testnet
    else mainnet

-- NetworkTier::from_version: the text behind the first dash decides.
unfoldable pub from_version : Text → NetworkTier
unfolding split_once tier_of_prerelease
from_version version = elim (split_once b'-' version) [
  | none ↦ mainnet
  | some (_, pre) ↦ tier_of_prerelease pre
]

unfoldable pub retention_limit : NetworkTier → Option ℕ
retention_limit nightly = some 2
retention_limit devnet = some 3
retention_limit testnet = some 5
retention_limit mainnet = none

abbrev pub SortKey : Type 0
SortKey = Text × ℕ

numbered : Text → Option ℕ → Text → SortKey
numbered base (some n) version = (base, n)
numbered base none version = (version, 0)

unfoldable pub version_sort_key : Text → SortKey
unfolding rsplit_once parse_u64 numbered
version_sort_key version = elim (rsplit_once b'.' version) [
  | none ↦ (version, 0)
  | some (base, prerelease) ↦ numbered base (parse_u64 prerelease) version
]

abbrev starts_with_dot : Text → Bool
starts_with_dot [] = false
starts_with_dot (c ∷ s) = c == b'.'

ends_with_dot : Text → Bool
ends_with_dot [] = false
ends_with_dot (c ∷ []) = c == b'.'
ends_with_dot (c ∷ (d ∷ s)) = ends_with_dot (d ∷ s)

-- `version.contains("..")`
contains_dotdot : Text → Bool
contains_dotdot [] = false
contains_dotdot (c ∷ s) = (c == b'.' && starts_with_dot s) || contains_dotdot s

abbrev pub is_version_byte : ℕ → Bool
is_version_byte c = is_alphanumeric c || (c == b'.' || (c == b'-' || c == b'_'))

abbrev is_empty : Text → Bool
is_empty [] = true
is_empty (_ ∷ _) = false

unfoldable pub is_valid_version : Text → Bool
unfolding ends_with_dot contains_dotdot
is_valid_version version =
    not (is_empty version)
    && (leb (length version) 128
        && (not (starts_with_dot version)
            && (not (ends_with_dot version)
                && (not (contains_dotdot version) && all is_version_byte version))))

-- The fields `tier` and `sort_key` are computed once, by `parse`.
pub record AztecVersion : Type 0 where
  pub raw : Text
  pub tier : NetworkTier
  pub sort_key : SortKey

-- AztecVersion::parse
unfoldable pub parse : Text → Option AztecVersion
unfolding is_valid_version from_version version_sort_key
parse version =
    if is_valid_version version
    then some
        (record { raw = version; tier = from_version version; sort_key = version_sort_key version })
    else none
