-- ===== src/Versions/Retention/Oldest.antt =====
-- The order by sort key in packages/accelerator/core/src/versions/version_policy.rs, and which
-- versions `versions_to_evict` and `evictions` choose.
use aztec_accelerator.Prelude.{
  ℕ, ◌-◌, ◌≡◌, ◌≢◌, ◌⊎◌, inl, inr, refl, subst, sym, true, false, Option, none, some, List, [], ◌∷◌,
  length, nat_eq, list_eq, arith,
}
use aztec_accelerator.Prelude.Members.{
  In, In-keep, keep-In, In-append, append_left-In, append_right-In, In-take, In-take_or_drop,
}
use aztec_accelerator.Prelude.Sorting.{
  IsSorted, IsOrder, In-sort, sort-In, sort-IsSorted, keep-IsSorted, take_le_drop,
}
use aztec_accelerator.Prelude.Texts.{Text, text_eq_iff}
use aztec_accelerator.Versions.Name.{
  NetworkTier, nightly, devnet, testnet, mainnet, retention_limit, AztecVersion,
}
use aztec_accelerator.Versions.Retention.Order.{KeyBelow, older-KeyBelow}
use aztec_accelerator.Versions.Retention.{
  text_leb, key_leb, older, tier_beq, tier_group, tier_candidates, effective_limit, evict_tier,
  evict_over, versions_to_evict, is_in_use, evictions,
}

text_leb-total : (s t : Text) → text_leb s t ≡ false → text_leb t s ≡ true
unfolding text_leb
text_leb-total [] t h = cc
text_leb-total (c ∷ s) [] h = refl
text_leb-total (c ∷ s) (d ∷ t) h = ground (arith, text_leb-total s t)

text_leb_trans : (s t u : Text) → text_leb s t ≡ true → text_leb t u ≡ true → text_leb s u ≡ true
unfolding text_leb
text_leb_trans [] t u h k = refl
text_leb_trans (c ∷ s) [] u h k = cc
text_leb_trans (c ∷ s) (d ∷ t) [] h k = cc
text_leb_trans (c ∷ s) (d ∷ t) (e ∷ u) h k = ground (arith, text_leb_trans s t u)

text_leb-antisym : (s t : Text) → text_leb s t ≡ true → text_leb t s ≡ true → s ≡ t
unfolding text_leb
text_leb-antisym [] [] h k = refl
text_leb-antisym [] (d ∷ t) h k = cc
text_leb-antisym (c ∷ s) [] h k = cc
text_leb-antisym (c ∷ s) (d ∷ t) h k = ground (arith, text_leb-antisym s t)

older-total : (a b : AztecVersion) → older a b ≡ false → older b a ≡ true
unfolding key_leb
older-total a b h =
    let (s, m) = a.sort_key in
    let (t, n) = b.sort_key in ground (arith, text_leb-total s t, text_eq_iff s t, text_eq_iff t s)

older_trans : (a b c : AztecVersion) → older a b ≡ true → older b c ≡ true → older a c ≡ true
unfolding key_leb
older_trans a b c h k =
    let s = a.sort_key.0 in
    let t = b.sort_key.0 in
    let u = c.sort_key.0 in
    ground (
      arith,
      text_leb_trans s t u,
      text_leb-antisym s t,
      text_eq_iff s t,
      text_eq_iff t u,
      text_eq_iff s u,
    )

pub older-IsOrder : IsOrder older
older-IsOrder = record { total = older-total; trans = older_trans }

pub tier_beq_sound : (t u : NetworkTier) → tier_beq t u ≡ true → t ≡ u
unfolding tier_beq
tier_beq_sound t u h = ground arith

pub tier_beq_refl : (t : NetworkTier) → tier_beq t t ≡ true
unfolding tier_beq
tier_beq_refl t = ground arith

pub In-tier_candidates :
    (x bundled : AztecVersion) (tier : NetworkTier) (cached : List AztecVersion)
    → In x (tier_candidates tier cached bundled)
    → In x cached × (x.tier ≡ tier) × (x.raw ≢ bundled.raw)
unfolding tier_candidates
In-tier_candidates x bundled tier cached h =
    let (sorted, other) = In-keep _ x _ h in
    let (listed, same) = In-keep _ x _ (In-sort older x _ sorted) in
    (
      listed,
      tier_beq_sound x.tier tier same,
      λ e. ground (arith, (text_eq_iff x.raw bundled.raw).1 e),
    )

tier_candidates-In :
    (x bundled : AztecVersion) (tier : NetworkTier) (cached : List AztecVersion)
    → In x cached
    → x.tier ≡ tier
    → x.raw ≢ bundled.raw
    → In x (tier_candidates tier cached bundled)
unfolding tier_candidates
tier_candidates-In x bundled tier cached h e n =
    keep-In _ x _ (sort-In older x _ (keep-In _ x _ h (rw e (tier_beq_refl tier))))
      (ground (arith, text_eq_iff x.raw bundled.raw))

pub In-evict_tier :
    (x bundled : AztecVersion) (tier : NetworkTier) (cached : List AztecVersion)
    → In x (evict_tier tier cached bundled)
    → In x (tier_candidates tier cached bundled) × (tier ≢ mainnet)
unfolding evict_tier
In-evict_tier x bundled nightly cached h = (In-take _ x _ h, λ e. cc)
In-evict_tier x bundled devnet cached h = (In-take _ x _ h, λ e. cc)
In-evict_tier x bundled testnet cached h = (In-take _ x _ h, λ e. cc)
In-evict_tier x bundled mainnet cached h = elim h [ ]

In-versions_to_evict :
    (x bundled : AztecVersion) (order : List NetworkTier) (cached : List AztecVersion)
    → In x (versions_to_evict order cached bundled)
    → In x (evict_tier x.tier cached bundled)
unfolding versions_to_evict
In-versions_to_evict x bundled [] cached h = elim h [ ]
In-versions_to_evict x bundled (tier ∷ order) cached h =
    elim (In-append x (evict_tier tier cached bundled) _ h) [
      | inl here ↦
          let (candidate, _) = In-evict_tier x bundled tier cached here in
          let (_, same, _) = In-tier_candidates x bundled tier cached candidate in
          subst (λ t. In x (evict_tier t cached bundled)) (sym same) here
      | inr later ↦ In-versions_to_evict x bundled order cached later
    ]

-- Whatever the order of the tiers, every version that cleanup plans to evict by count is cached, is
-- not a mainnet version, and is neither the bundled version nor the one in use.
pub evictions_spares :
    (order : List NetworkTier) (cached : List AztecVersion) (bundled : AztecVersion)
    (in_use : Option AztecVersion) (x : AztecVersion)
    → In x (evictions order cached bundled in_use)
    → In x cached × (x.tier ≢ mainnet) × (x.raw ≢ bundled.raw) × (is_in_use in_use x ≡ false)
unfolding evictions
evictions_spares order cached bundled in_use x h =
    let (planned, free) = In-keep _ x _ h in
    let (candidate, finite) =
      In-evict_tier x bundled x.tier cached (In-versions_to_evict x bundled order cached planned) in
    let (listed, _, other) = In-tier_candidates x bundled x.tier cached candidate in
    (listed, finite, other, ground arith)

tier_candidates-IsSorted :
    (tier : NetworkTier) (cached : List AztecVersion) (bundled : AztecVersion)
    → IsSorted older (tier_candidates tier cached bundled)
unfolding tier_candidates
tier_candidates-IsSorted tier cached bundled =
    keep-IsSorted older _ _ (sort-IsSorted older older-IsOrder (tier_group tier cached))

evict_over_or_older :
    (limit : Option ℕ) (x y bundled : AztecVersion) (tier : NetworkTier)
    (cached : List AztecVersion)
    → In x (evict_over limit tier cached bundled)
    → In y (tier_candidates tier cached bundled)
    → In y (evict_over limit tier cached bundled) ⊎ (older x y ≡ true)
unfolding evict_over
evict_over_or_older none x y bundled tier cached h k = elim h [ ]
evict_over_or_older (some limit) x y bundled tier cached h k =
    let versions = tier_candidates tier cached bundled in
    let excess = length versions - effective_limit limit tier cached bundled in
    elim (In-take_or_drop excess y versions k) [
      | inl evicted ↦ inl evicted
      | inr kept ↦ inr (
          take_le_drop older excess x y versions (tier_candidates-IsSorted tier cached bundled) h
            kept)
    ]

evict_tier-In_order :
    (order : List NetworkTier) (cached : List AztecVersion) (bundled x y : AztecVersion)
    → In x (versions_to_evict order cached bundled)
    → In y (evict_tier x.tier cached bundled)
    → In y (versions_to_evict order cached bundled)
unfolding versions_to_evict
evict_tier-In_order [] cached bundled x y h k = elim h [ ]
evict_tier-In_order (tier ∷ order) cached bundled x y h k =
    elim (In-append x (evict_tier tier cached bundled) _ h) [
      | inl here ↦
          let (candidate, _) = In-evict_tier x bundled tier cached here in
          let (_, same, _) = In-tier_candidates x bundled tier cached candidate in
          append_left-In y _ _ (subst (λ t. In y (evict_tier t cached bundled)) same k)
      | inr later ↦
          append_right-In y (evict_tier tier cached bundled) _
            (evict_tier-In_order order cached bundled x y later k)
    ]

-- Eviction by count goes by sort key: if x is evicted, and y is a cached version of the same tier
-- that is neither evicted nor the bundled one, then the sort key of x is not above that of y. Its
-- text is a proper prefix of the other text or has the smaller byte where the two first differ, or
-- the texts are the same and its number is not the greater one.
pub evicts_oldest_first :
    (order : List NetworkTier) (cached : List AztecVersion) (bundled x y : AztecVersion)
    → In x (versions_to_evict order cached bundled)
    → In y cached
    → y.tier ≡ x.tier
    → y.raw ≢ bundled.raw
    → ¬ (In y (versions_to_evict order cached bundled))
    → KeyBelow x.sort_key y.sort_key
unfolding evict_tier
evicts_oldest_first order cached bundled x y h k e n kept =
    let evicted = In-versions_to_evict x bundled order cached h in
    elim (evict_over_or_older (retention_limit x.tier) x y bundled x.tier cached evicted
      (tier_candidates-In y bundled x.tier cached k e n)) [
        | inl also ↦ absurd (kept (evict_tier-In_order order cached bundled x y h also))
        | inr below ↦ older-KeyBelow x y below
      ]
