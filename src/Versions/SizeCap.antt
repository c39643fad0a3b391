-- ===== src/Versions/SizeCap.antt =====
-- packages/accelerator/core/src/versions/version_policy.rs: `versions_to_evict_for_size`, the ceiling
-- on the total size of the cache. Sizes are `u64`; sums saturate as they do in the source.
pub mod Candidates
pub mod Shortest
use aztec_accelerator.Prelude.{
  ℕ, ◌-◌, ◌*◌, Bool, not, ◌||◌, Option, List, [], ◌∷◌, leb, if◌then◌else◌,
}
use aztec_accelerator.Prelude.Lists.{keep}
use aztec_accelerator.Prelude.Numbers.{saturating_add}
use aztec_accelerator.Prelude.Sorting.{sort}
use aztec_accelerator.Versions.Name.{AztecVersion}
use aztec_accelerator.Versions.Retention.{older, same_name, is_in_use}

-- 2 GiB
abbrev pub cache_max_total_bytes : ℕ
cache_max_total_bytes = 2 * 1024 * 1024 * 1024

abbrev pub Sized : Type 0
Sized = AztecVersion × ℕ

unfoldable pub saturated_total : ℕ → List Sized → ℕ
saturated_total acc [] = acc
saturated_total acc ((_, n) ∷ sized) = saturated_total (saturating_add acc n) sized

abbrev pub is_pinned : AztecVersion → Option AztecVersion → AztecVersion → Bool
is_pinned bundled in_use v = same_name v bundled || is_in_use in_use v

unfoldable pub size_candidates : List Sized → AztecVersion → Option AztecVersion → List Sized
size_candidates sized bundled in_use =
    sort (λ a b. older a.0 b.0) (keep (λ e. not (is_pinned bundled in_use e.0)) sized)

-- The loop: it stops as soon as the total is within the cap. `-` on ℕ is `saturating_sub`.
unfoldable pub evict_until : ℕ → ℕ → List Sized → List AztecVersion
evict_until max_total total [] = []
evict_until max_total total ((version, bytes) ∷ rest) =
    let later = evict_until max_total (total - bytes) rest in
    if leb total max_total then [] else version ∷ later

unfoldable pub versions_to_evict_for_size :
    List Sized → AztecVersion → Option AztecVersion → ℕ → List AztecVersion
unfolding saturated_total evict_until
versions_to_evict_for_size sized bundled in_use max_total =
    let total = saturated_total 0 sized in
    let evicted = evict_until max_total total (size_candidates sized bundled in_use) in
    if leb total max_total then [] else evicted
