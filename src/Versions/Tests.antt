-- ===== src/Versions/Tests.antt =====
-- Runs of packages/accelerator/core/src/versions/version_policy.rs on small caches.
use aztec_accelerator.Prelude.{
  ℕ, ◌+◌, ◌-◌, ◌<◌, ◌≤◌, ◌≡◌, ◌≢◌, ◌⊎◌, inl, inr, refl, arith, true, false, none, some, List, [],
  ◌∷◌, ◌++◌, leb, length, take, contains, All, nat_eq, list_eq, if◌then◌else◌,
}
use aztec_accelerator.Prelude.Equality.{list_beq}
use aztec_accelerator.Prelude.Members.{In}
use aztec_accelerator.Prelude.Sorting.{sort, insert_sorted}
use aztec_accelerator.Prelude.Texts.{Text, codes}
use aztec_accelerator.Versions.Name.{
  nightly, mainnet, AztecVersion, is_valid_version, version_sort_key, parse, from_version,
  retention_limit,
}
use aztec_accelerator.Versions.Name.Grammar.{IsPlainByte, parse_is_safe_component}
use aztec_accelerator.Versions.Retention.{
  tier_group, key_leb, text_leb, tier_beq, versions_to_evict, evictions, is_in_use, tier_candidates,
  effective_limit, evict_tier,
}
use aztec_accelerator.Versions.Retention.Bounds.{retention_exact}
use aztec_accelerator.Versions.Retention.Oldest.{evicts_oldest_first, evictions_spares}
use aztec_accelerator.Versions.Retention.Order.{KeyBelow}
use aztec_accelerator.Versions.SizeCap.Candidates.{IsQueue}
use aztec_accelerator.Versions.SizeCap.{versions_to_evict_for_size}
use aztec_accelerator.Versions.SizeCap.Shortest.{bytes_of, names_of, evicts_shortest_prefix}
use aztec_accelerator.Prelude.Maps.{lookup}
use aztec_accelerator.Leases.{held}
use aztec_accelerator.Versions.Cleanup.{
  Cache, DirAnswers, cleanup_pass, cleanup_after_active_window,
}
use aztec_accelerator.Versions.Cleanup.Spares.{cleanup_spares}

abbrev night : ℕ → AztecVersion
night d = record {
  raw = codes "5.0.0-nightly.2026010" ++ (b'0' + d) ∷ [];
  tier = nightly;
  sort_key = (codes "5.0.0-nightly", 20260100 + d);
}

abbrev main_release : AztecVersion
main_release = record { raw = codes "5.0.0"; tier = mainnet; sort_key = (codes "5.0", 0) }

-- Three nightlies, one above the limit, and the bundled release.
abbrev cache : List AztecVersion
cache = night 3 ∷ main_release ∷ night 1 ∷ night 2 ∷ []

parse_is_safe_component_example :
    (codes "5.0.0" ≡ codes "5.0.0")
    × (codes "5.0.0" ≢ [])
    × (codes "5.0.0" ≢ codes ".")
    × (codes "5.0.0" ≢ codes "..")
    × (length (codes "5.0.0") ≤ 128)
    × All IsPlainByte (codes "5.0.0")
    × (contains b'/' (codes "5.0.0") ≡ false)
    × (contains 92 (codes "5.0.0") ≡ false)
    × (contains b':' (codes "5.0.0") ≡ false)
    × (contains b'%' (codes "5.0.0") ≡ false)
    × (contains 0 (codes "5.0.0") ≡ false)
unfolding parse is_valid_version from_version version_sort_key
parse_is_safe_component_example = parse_is_safe_component (codes "5.0.0") refl

retention_exact_example :
    length (tier_group nightly cache)
      - length (tier_group nightly (versions_to_evict (nightly ∷ mainnet ∷ []) cache main_release))
    ≡ (if leb (length (tier_group nightly cache)) 2 then length (tier_group nightly cache) else 2)
unfolding retention_limit tier_beq list_beq
retention_exact_example =
    retention_exact nightly 2 (nightly ∷ mainnet ∷ []) cache main_release refl refl (omega arith)

evicts_oldest_first_example : KeyBelow (night 1).sort_key (night 2).sort_key
unfolding versions_to_evict evict_tier tier_candidates effective_limit retention_limit key_leb
    text_leb tier_beq sort insert_sorted list_beq
evicts_oldest_first_example =
    evicts_oldest_first (nightly ∷ mainnet ∷ []) cache main_release (night 1) (night 2) (inl refl)
      (inr (inr (inr (inl refl)))) refl (λ e. ground (arith, e)) (λ h. ground (arith, h))

evictions_spares_example :
    In (night 1) cache
    × (nightly ≢ mainnet)
    × ((night 1).raw ≢ main_release.raw)
    × (is_in_use (some (night 3)) (night 1) ≡ false)
unfolding evictions versions_to_evict evict_tier tier_candidates effective_limit retention_limit
    key_leb text_leb tier_beq sort insert_sorted list_beq
evictions_spares_example =
    evictions_spares (nightly ∷ mainnet ∷ []) cache main_release (some (night 3)) (night 1)
      (inl refl)

abbrev sizes : List (AztecVersion × ℕ)
sizes = (night 3, 60) ∷ (main_release, 50) ∷ (night 1, 40) ∷ (night 2, 30) ∷ []

evicts_shortest_prefix_example :
    (candidates : List (AztecVersion × ℕ)) × IsQueue sizes main_release (some (night 3)) candidates
    × ((k : ℕ) × (versions_to_evict_for_size sizes main_release (some (night 3)) 100
          ≡ names_of (take k candidates))
        × ((bytes_of sizes - bytes_of (take k candidates) ≤ 100) ⊎ (k ≡ length candidates))
        × ((j : ℕ) → j < k → 100 < bytes_of sizes - bytes_of (take j candidates)))
evicts_shortest_prefix_example =
    evicts_shortest_prefix sizes main_release (some (night 3)) 100 (omega arith)

-- The oldest nightly is leased, and the cache holds one nightly too many.
abbrev leased_cache : Cache
leased_cache = record {
  dirs = ((night 3).raw, 60) ∷ (codes "5.0.0", 50) ∷ ((night 1).raw, 40) ∷ ((night 2).raw, 30) ∷ [];
  registry = ((night 1).raw, held 1) ∷ [];
}

abbrev quiet_disk : DirAnswers
quiet_disk = record { recently_active = λ v. false; remove_ok = λ v. true }

cleanup_spares_example :
    In
      ((night 1).raw, 40)
      (cleanup_pass (nightly ∷ mainnet ∷ []) leased_cache main_release none quiet_disk).0.dirs
    × In
        ((night 1).raw, 40)
        (cleanup_after_active_window leased_cache main_release none quiet_disk).dirs
    × ((w : Text)
        → (lookup w
              (cleanup_pass
                (nightly ∷ mainnet ∷ [])
                leased_cache
                main_release
                none
                quiet_disk).0.registry
            ≡ lookup w leased_cache.registry)
          × (lookup w
                (cleanup_after_active_window leased_cache main_release none quiet_disk).registry
              ≡ lookup w leased_cache.registry))
unfolding lookup list_beq
cleanup_spares_example =
    cleanup_spares (nightly ∷ mainnet ∷ []) leased_cache main_release none quiet_disk
      ((night 1).raw, 40) (inr (inr (inl refl))) (inr (inr (inr (1, refl))))
