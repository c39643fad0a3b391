-- ===== src/Versions/Cleanup.antt =====
-- packages/accelerator/core/src/versions/version_policy.rs: the cleanup passes, over the registry of
-- leases. Which versions were touched within the active window, and whether a directory could be
-- deleted, is what the file system answers.
pub mod Spares
use aztec_accelerator.Prelude.{
  ℕ, Bool, true, false, not, ◌||◌, Option, none, some, List, [], ◌∷◌, ◌++◌, any, map, ◌==◌, nat_eq,
  list_eq, if◌then◌else◌,
}
use aztec_accelerator.Prelude.Lists.{keep}
use aztec_accelerator.Prelude.Texts.{Text}
use aztec_accelerator.Leases.{Registry, Reserved, ok, err, begin_evict, drop_reservation}
use aztec_accelerator.Versions.Name.{NetworkTier, AztecVersion, parse}
use aztec_accelerator.Versions.Retention.{same_name, evictions}
use aztec_accelerator.Versions.SizeCap.{Sized, cache_max_total_bytes, versions_to_evict_for_size}

-- The version directories by name, each with the bytes in it, and the registry of leases.
pub record Cache : Type 0 where
  pub dirs : List (Text × ℕ)
  pub registry : Registry

-- `recently_active` and `remove_dir_all`, by the name of a version.
pub record DirAnswers : Type 0 where
  pub recently_active : Text → Bool
  pub remove_ok : Text → Bool

-- The reservation is dropped at the end, whether or not the directory could be deleted.
pub evict_reserved : Cache → AztecVersion → Bool → Registry × Reserved → Cache × Bool
evict_reserved c v remove_ok (registry, err why) = (record c { registry = registry }, true)
evict_reserved c v remove_ok (registry, ok r) = (
  record {
    dirs = if remove_ok then keep (λ d. not (d.0 == v.raw)) c.dirs else c.dirs;
    registry = drop_reservation r registry;
  },
  false,
)

-- The flag asks for a retry pass.
pub evict_if_unheld : Cache → AztecVersion → DirAnswers → Cache × Bool
unfolding evict_reserved
evict_if_unheld c v fs =
    if fs.recently_active v.raw
    then (c, true)
    else evict_reserved c v (fs.remove_ok v.raw) (begin_evict v.raw c.registry)

-- The loop over the planned versions.
pub evict_all : Cache → List AztecVersion → DirAnswers → Cache × Bool
unfolding evict_if_unheld
evict_all c [] fs = (c, false)
evict_all c (v ∷ vs) fs =
    let (c', deferred) = evict_if_unheld c v fs in
    let (c'', later) = evict_all c' vs fs in (c'', deferred || later)

add_parsed : Option AztecVersion → ℕ → List Sized → List Sized
add_parsed none n sized = sized
add_parsed (some v) n sized = (v, n) ∷ sized

-- `filter_map(AztecVersion::parse)`, with the sizes
pub cached_versions : List (Text × ℕ) → List Sized
unfolding add_parsed
cached_versions [] = []
cached_versions ((name, n) ∷ dirs) = add_parsed (parse name) n (cached_versions dirs)

-- By count first, and by size what that leaves.
pub planned : List NetworkTier → List Sized → AztecVersion → Option AztecVersion → List AztecVersion
planned order cached bundled in_use =
    let by_count = evictions order (map (λ e. e.0) cached) bundled in_use in
    let survivors = keep (λ e. not (any (λ v. same_name v e.0) by_count)) cached in
    by_count ++ versions_to_evict_for_size survivors bundled in_use cache_max_total_bytes

-- The first pass of `cleanup_old_versions`.
pub cleanup_pass :
    List NetworkTier → Cache → AztecVersion → Option AztecVersion → DirAnswers → Cache × Bool
unfolding evict_all planned cached_versions
cleanup_pass order c bundled in_use fs =
    evict_all c (planned order (cached_versions c.dirs) bundled in_use) fs

pub cleanup_after_active_window : Cache → AztecVersion → Option AztecVersion → DirAnswers → Cache
unfolding evict_all cached_versions
cleanup_after_active_window c bundled in_use fs =
    (evict_all c
      (versions_to_evict_for_size (cached_versions c.dirs) bundled in_use cache_max_total_bytes)
      fs).0

-- `meanwhile` is what others do to the cache while this task sleeps.
unfoldable pub cleanup_old_versions :
    List NetworkTier
    → Cache
    → AztecVersion
    → Option AztecVersion
    → DirAnswers
    → (Cache → Cache)
    → DirAnswers
    → Cache
unfolding cleanup_pass cleanup_after_active_window
cleanup_old_versions order c bundled in_use fs meanwhile fs' =
    let (c', deferred) = cleanup_pass order c bundled in_use fs in
    if deferred then cleanup_after_active_window (meanwhile c') bundled in_use fs' else c'

-- An unparseable bundled version stops the sweep.
unfoldable pub sweep_cache_on_start :
    List NetworkTier → Cache → Text → DirAnswers → (Cache → Cache) → DirAnswers → Cache
unfolding cleanup_old_versions
sweep_cache_on_start order c bundled fs meanwhile fs' = elim (parse bundled) [
  | none ↦ c
  | some v ↦ cleanup_old_versions order c v none fs meanwhile fs'
]
