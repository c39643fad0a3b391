-- ===== src/Versions/Retention.antt =====
-- packages/accelerator/core/src/versions/version_policy.rs: `versions_to_evict`, the retention policy
-- per network tier, and `evictions`. The order in which the source's `HashMap` gives its tiers is not
-- specified: it is the argument `order`.
pub mod Bounds
pub mod Oldest
pub mod Order
use aztec_accelerator.Prelude.{
  ℕ, ◌-◌, Bool, true, false, not, ◌&&◌, ◌||◌, Option, none, some, List, [], ◌∷◌, ◌++◌, ltb, length,
  any, take, ◌==◌, nat_eq, list_eq, if◌then◌else◌,
}
use aztec_accelerator.Prelude.Lists.{keep}
use aztec_accelerator.Prelude.Sorting.{sort}
use aztec_accelerator.Prelude.Texts.{Text}
use aztec_accelerator.Versions.Name.{
  NetworkTier, nightly, devnet, testnet, mainnet, retention_limit, AztecVersion, SortKey,
}

-- `Ord for str`: lexicographic on bytes.
unfoldable pub text_leb : Text → Text → Bool
text_leb [] t = true
text_leb (c ∷ s) [] = false
text_leb (c ∷ s) (d ∷ t) = ltb c d || (c == d && text_leb s t)

-- `Ord for (String, u64)`
unfoldable pub key_leb : SortKey → SortKey → Bool
unfolding text_leb
key_leb (s, m) (t, n) = if s == t then not (ltb n m) else text_leb s t

abbrev pub older : AztecVersion → AztecVersion → Bool
older a b = key_leb a.sort_key b.sort_key

-- `PartialEq for NetworkTier`
unfoldable pub tier_beq : NetworkTier → NetworkTier → Bool
tier_beq nightly nightly = true
tier_beq devnet devnet = true
tier_beq testnet testnet = true
tier_beq mainnet mainnet = true
tier_beq _ _ = false

-- `a.as_str() == b.as_str()`
abbrev pub same_name : AztecVersion → AztecVersion → Bool
same_name a b = a.raw == b.raw

-- The versions that `by_tier` holds for a tier, in their order in `cached`.
abbrev pub tier_group : NetworkTier → List AztecVersion → List AztecVersion
tier_group tier cached = keep (λ v. tier_beq v.tier tier) cached

-- The tier's versions but the bundled one, oldest first.
unfoldable pub tier_candidates : NetworkTier → List AztecVersion → AztecVersion → List AztecVersion
unfolding tier_beq
tier_candidates tier cached bundled =
    keep (λ v. not (same_name v bundled)) (sort older (tier_group tier cached))

unfoldable pub effective_limit : ℕ → NetworkTier → List AztecVersion → AztecVersion → ℕ
unfolding tier_beq
effective_limit limit tier cached bundled =
    if any (λ v. same_name v bundled && tier_beq v.tier tier) cached then limit - 1 else limit

-- `versions.drain(0..excess)`
evict_over : Option ℕ → NetworkTier → List AztecVersion → AztecVersion → List AztecVersion
evict_over none tier cached bundled = []
evict_over (some limit) tier cached bundled =
    let versions = tier_candidates tier cached bundled in
    let excess = length versions - effective_limit limit tier cached bundled in take excess versions

unfoldable pub evict_tier : NetworkTier → List AztecVersion → AztecVersion → List AztecVersion
unfolding evict_over retention_limit
evict_tier tier cached bundled = evict_over (retention_limit tier) tier cached bundled

unfoldable pub versions_to_evict :
    List NetworkTier → List AztecVersion → AztecVersion → List AztecVersion
versions_to_evict [] cached bundled = []
versions_to_evict (tier ∷ order) cached bundled =
    evict_tier tier cached bundled ++ versions_to_evict order cached bundled

-- `in_use.is_some_and(|u| u.as_str() == v.as_str())`
abbrev pub is_in_use : Option AztecVersion → AztecVersion → Bool
is_in_use none v = false
is_in_use (some u) v = same_name u v

unfoldable pub evictions :
    List NetworkTier → List AztecVersion → AztecVersion → Option AztecVersion → List AztecVersion
unfolding versions_to_evict
evictions order cached bundled in_use =
    keep (λ v. not (is_in_use in_use v)) (versions_to_evict order cached bundled)
