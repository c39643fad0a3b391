-- ===== src/Versions/Cleanup/Spares.antt =====
-- What the cleanup passes of packages/accelerator/core/src/versions/version_policy.rs leave alone.
use aztec_accelerator.Prelude.{
  ℕ, ◌≡◌, ◌≢◌, ◌⊎◌, inl, inr, refl, sym, ◌∙◌, subst, Bool, true, false, not, Option, none, some,
  List, [], ◌∷◌, any, map, arith, ◌==◌, nat_eq, list_eq, if◌then◌else◌, Bool-cases,
}
use aztec_accelerator.Prelude.Lists.{keep}
use aztec_accelerator.Prelude.Maps.{lookup}
use aztec_accelerator.Prelude.Members.{In, keep-In, In-append}
use aztec_accelerator.Prelude.Texts.{Text, text_eq_iff}
use aztec_accelerator.Leases.{Registry, held}
use aztec_accelerator.Leases.Eviction.{begin_evict-cases, lookup-drop_reservation}
use aztec_accelerator.Versions.Name.{NetworkTier, AztecVersion}
use aztec_accelerator.Versions.Retention.{is_in_use, same_name, evictions}
use aztec_accelerator.Versions.Retention.Oldest.{evictions_spares}
use aztec_accelerator.Versions.SizeCap.{
  Sized, is_pinned, versions_to_evict_for_size, cache_max_total_bytes,
}
use aztec_accelerator.Versions.SizeCap.Shortest.{size_evictions_spare_pinned}
use aztec_accelerator.Versions.Cleanup.{
  Cache, DirAnswers, evict_reserved, evict_if_unheld, evict_all, planned, cached_versions,
  cleanup_pass, cleanup_after_active_window,
}

-- A directory that no pass may touch now: a proof holds its version, or it was just used.
abbrev pub Guarded : Text → Registry → DirAnswers → Type 0
Guarded name registry fs =
    (fs.recently_active name ≡ true) ⊎ ((n : ℕ) × (lookup name registry ≡ some (held n)))

not_same :
    (name raw : Text) (registry : Registry) (fs : DirAnswers)
    → fs.recently_active raw ≡ false
    → lookup raw registry ≡ none
    → (name ≡ raw → Guarded raw registry fs)
    → (name == raw) ≡ false
not_same name raw registry fs idle free safe = elim (Bool-cases (name == raw)) [
  | inr other ↦ other
  | inl same ↦ elim (safe ((text_eq_iff name raw).0 same)) [
    | inl active ↦ absurd (ground (arith, idle, active))
    | inr (n, leased) ↦ absurd (ground (arith, free, leased))
  ]
]

kept :
    (c : Cache) (v : AztecVersion) (fs : DirAnswers) (d : Text × ℕ)
    → In d c.dirs
    → (d.0 == v.raw) ≡ false
    → In d (if fs.remove_ok v.raw then keep (λ e. not (e.0 == v.raw)) c.dirs else c.dirs)
kept c v fs d here other = elim (Bool-cases (fs.remove_ok v.raw)) [
  | inl done ↦ rw done (keep-In (λ e. not (e.0 == v.raw)) d c.dirs here (rw other refl))
  | inr broken ↦ rw broken here
]

-- One step leaves the registry as it was, and the directory d unless it is that of a version that is
-- neither guarded nor another one.
evict_if_unheld-keeps :
    (c : Cache) (v : AztecVersion) (fs : DirAnswers) (d : Text × ℕ)
    → In d c.dirs
    → (d.0 ≡ v.raw → Guarded v.raw c.registry fs)
    → ((w : Text) → lookup w (evict_if_unheld c v fs).0.registry ≡ lookup w c.registry)
      × In d (evict_if_unheld c v fs).0.dirs
unfolding evict_if_unheld evict_reserved
evict_if_unheld-keeps c v fs d here safe = elim (Bool-cases (fs.recently_active v.raw)) [
  | inl active ↦ rw active (λ w. refl, here)
  | inr idle ↦ elim (begin_evict-cases v.raw c.registry) [
    | inr (why, e) ↦ rw (idle, e) (λ w. refl, here)
    | inl (free, e) ↦
        let other : (d.0 == v.raw) ≡ false = not_same d.0 v.raw c.registry fs idle free safe in
        rw (idle, e)
          (λ w. lookup-drop_reservation v.raw w c.registry free, kept c v fs d here other)
  ]
]

Guarded-later :
    (name : Text) (before after : Registry) (fs : DirAnswers)
    → lookup name after ≡ lookup name before
    → Guarded name before fs
    → Guarded name after fs
Guarded-later name before after fs same (inl active) = inl active
Guarded-later name before after fs same (inr (n, leased)) = inr (n, same ∙ leased)

evict_all-keeps :
    (c : Cache) (vs : List AztecVersion) (fs : DirAnswers) (d : Text × ℕ)
    → In d c.dirs
    → ((v : AztecVersion) → In v vs → d.0 ≡ v.raw → Guarded v.raw c.registry fs)
    → ((w : Text) → lookup w (evict_all c vs fs).0.registry ≡ lookup w c.registry)
      × In d (evict_all c vs fs).0.dirs
unfolding evict_all
evict_all-keeps c [] fs d here safe = (λ w. refl, here)
evict_all-keeps c (v ∷ vs) fs d here safe =
    let (same, still) = evict_if_unheld-keeps c v fs d here (safe v (inl refl)) in
    let c' = (evict_if_unheld c v fs).0 in
    let (same', still') = evict_all-keeps c' vs fs d still (λ u in_vs e.
      Guarded-later u.raw c.registry c'.registry fs (same u.raw) (safe u (inr in_vs) e)) in
    (λ w. same' w ∙ same w, still')

-- What eviction by either policy plans is neither bundled nor in use.
unpinned :
    (bundled : AztecVersion) (in_use : Option AztecVersion) (v : AztecVersion)
    → is_pinned bundled in_use v ≡ false
    → (v.raw ≢ bundled.raw) × (is_in_use in_use v ≡ false)
unpinned bundled in_use v h =
    (λ e. ground (arith, h, e, text_eq_iff v.raw bundled.raw), ground (arith, h))

planned-unpinned :
    (order : List NetworkTier) (cached : List Sized) (bundled : AztecVersion)
    (in_use : Option AztecVersion) (v : AztecVersion)
    → In v (planned order cached bundled in_use)
    → (v.raw ≢ bundled.raw) × (is_in_use in_use v ≡ false)
unfolding planned
planned-unpinned order cached bundled in_use v h =
    let by_count = evictions order (map (λ e. e.0) cached) bundled in_use in
    let survivors = keep (λ e. not (any (λ u. same_name u e.0) by_count)) cached in
    elim (In-append v by_count
      (versions_to_evict_for_size survivors bundled in_use cache_max_total_bytes) h) [
        | inl counted ↦
            let (a, b, other, unused) =
              evictions_spares order (map (λ e. e.0) cached) bundled in_use v counted in
            (other, unused)
        | inr sized ↦
            unpinned bundled in_use v
              (size_evictions_spare_pinned survivors bundled in_use cache_max_total_bytes v sized).0
      ]

-- A directory that a cleanup pass must leave: that of the bundled version, of the one in use, or of a
-- guarded one.
abbrev pub Spared : Text → AztecVersion → Option AztecVersion → Registry → DirAnswers → Type 0
Spared name bundled in_use registry fs =
    (name ≡ bundled.raw)
    ⊎ ((u : AztecVersion) × (in_use ≡ some u) × (name ≡ u.raw))
    ⊎ Guarded name registry fs

not_both : (b : Bool) → b ≡ true → b ≡ false → ⊥
not_both b on off = ground arith

Spared-plan :
    (name : Text) (bundled : AztecVersion) (in_use : Option AztecVersion) (registry : Registry)
    (fs : DirAnswers) (v : AztecVersion)
    → Spared name bundled in_use registry fs
    → (v.raw ≢ bundled.raw) × (is_in_use in_use v ≡ false)
    → name ≡ v.raw
    → Guarded v.raw registry fs
Spared-plan name bundled in_use registry fs v (inl e) (other, unused) same =
    absurd (other (sym same ∙ e))
Spared-plan name bundled in_use registry fs v (inr (inl (u, used, e))) (other, unused) same =
    let differs : (u.raw == v.raw) ≡ false = subst (λ i. is_in_use i v ≡ false) used unused in
    absurd (not_both (u.raw == v.raw) ((text_eq_iff u.raw v.raw).1 (sym e ∙ same)) differs)
Spared-plan name bundled in_use registry fs v (inr (inr g)) pinned same =
    subst (λ n. Guarded n registry fs) same g

-- No cleanup pass, the retry included, removes the directory of the bundled version, of the version in
-- use, of one that a proof has leased, or of one touched within the active window; and a pass leaves
-- the lease registry as it found it, so that no proof is refused a version behind it.
pub cleanup_spares :
    (order : List NetworkTier) (c : Cache) (bundled : AztecVersion) (in_use : Option AztecVersion)
    (fs : DirAnswers) (d : Text × ℕ)
    → In d c.dirs
    → Spared d.0 bundled in_use c.registry fs
    → In d (cleanup_pass order c bundled in_use fs).0.dirs
      × In d (cleanup_after_active_window c bundled in_use fs).dirs
      × ((w : Text)
          → (lookup w (cleanup_pass order c bundled in_use fs).0.registry ≡ lookup w c.registry)
            × (lookup w (cleanup_after_active_window c bundled in_use fs).registry
                ≡ lookup w c.registry))
unfolding cleanup_pass cleanup_after_active_window
cleanup_spares order c bundled in_use fs d here spared =
    let cached = cached_versions c.dirs in
    let (same, still) = evict_all-keeps c (planned order cached bundled in_use) fs d here (λ v h.
      Spared-plan d.0 bundled in_use c.registry fs v spared
        (planned-unpinned order cached bundled in_use v h)) in
    let by_size = versions_to_evict_for_size cached bundled in_use cache_max_total_bytes in
    let (same', still') = evict_all-keeps c by_size fs d here (λ v h.
      Spared-plan d.0 bundled in_use c.registry fs v spared (
        unpinned bundled in_use v
          (size_evictions_spare_pinned cached bundled in_use cache_max_total_bytes v h).0)) in
    (still, still', λ w. (same w, same' w))
