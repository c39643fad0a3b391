-- ===== src/Versions/Retention/Bounds.antt =====
-- How many versions `versions_to_evict` of
-- packages/accelerator/core/src/versions/version_policy.rs leaves in each network tier.
use aztec_accelerator.Prelude.{
  ℕ, ◌+◌, ◌-◌, ◌≤◌, ◌<◌, ◌≡◌, refl, Bool, not, ◌&&◌, some, List, [], ◌∷◌, ◌++◌, ltb, leb, length,
  any, inl, inr, ap, ◌*◌, nat_eq, list_eq, if◌then◌else◌, arith, Bool-cases,
}
use aztec_accelerator.Prelude.Lists.{keep, length-take}
use aztec_accelerator.Prelude.Sorting.{length-keep-sort}
use aztec_accelerator.Prelude.Members.{In}
use aztec_accelerator.Versions.Retention.Oldest.{In-tier_candidates, In-evict_tier, tier_beq_sound}
use aztec_accelerator.Versions.Name.{NetworkTier, retention_limit, AztecVersion}
use aztec_accelerator.Versions.Retention.{
  tier_beq, same_name, tier_group, tier_candidates, effective_limit, evict_tier, older, evict_over,
  versions_to_evict,
}

-- How often the bundled version stands in the cache.
abbrev pub copies : AztecVersion → List AztecVersion → ℕ
copies bundled [] = 0
copies bundled (v ∷ vs) = (if same_name v bundled then 1 else 0) + copies bundled vs

-- How often it stands there in a tier.
abbrev tier_copies : AztecVersion → NetworkTier → List AztecVersion → ℕ
tier_copies bundled tier [] = 0
tier_copies bundled tier (v ∷ vs) =
    (if same_name v bundled && tier_beq v.tier tier then 1 else 0) + tier_copies bundled tier vs

tier_copies-le :
    (b : AztecVersion) (tier : NetworkTier) (vs : List AztecVersion)
    → tier_copies b tier vs ≤ copies b vs
tier_copies-le b tier [] = omega arith
tier_copies-le b tier (v ∷ vs) = ground (arith, tier_copies-le b tier vs)

any-tier_copies :
    (b : AztecVersion) (tier : NetworkTier) (vs : List AztecVersion)
    → any (λ v. same_name v b && tier_beq v.tier tier) vs ≡ ltb 0 (tier_copies b tier vs)
any-tier_copies b tier [] = refl
any-tier_copies b tier (v ∷ vs) = ground (arith, any-tier_copies b tier vs)

length-tier_group :
    (b : AztecVersion) (tier : NetworkTier) (vs : List AztecVersion)
    → length (tier_group tier vs)
      ≡ length (keep (λ v. not (same_name v b)) (tier_group tier vs)) + tier_copies b tier vs
length-tier_group b tier [] = refl
length-tier_group b tier (v ∷ vs) = ground (arith, length-tier_group b tier vs)

length-tier_candidates :
    (b : AztecVersion) (tier : NetworkTier) (vs : List AztecVersion)
    → length (tier_group tier vs) ≡ length (tier_candidates tier vs b) + tier_copies b tier vs
unfolding tier_candidates
length-tier_candidates b tier vs = omega (
  arith,
  length-tier_group b tier vs,
  length-keep-sort older (λ v. not (same_name v b)) (tier_group tier vs),
)

length-evict_over :
    (limit : ℕ) (tier : NetworkTier) (cached : List AztecVersion) (bundled : AztecVersion)
    → 0 < limit
    → copies bundled cached ≤ 1
    → length (tier_group tier cached) - length (evict_over (some limit) tier cached bundled) ≡ (
        if leb (length (tier_group tier cached)) limit
        then length (tier_group tier cached)
        else limit)
unfolding evict_over effective_limit
length-evict_over limit tier cached bundled h k =
    let versions = tier_candidates tier cached bundled in
    ground (
      arith,
      length-tier_candidates bundled tier cached,
      tier_copies-le bundled tier cached,
      any-tier_copies bundled tier cached,
      length-take (length versions - limit) versions,
      length-take (length versions - (limit - 1)) versions,
    )

limit-pos : (t : NetworkTier) (limit : ℕ) → retention_limit t ≡ some limit → 0 < limit
unfolding retention_limit
limit-pos t limit h = ground arith

-- How often a tier stands in an order of tiers.
abbrev pub occurrences : NetworkTier → List NetworkTier → ℕ
occurrences tier [] = 0
occurrences tier (t ∷ order) = (if tier_beq t tier then 1 else 0) + occurrences tier order

length-tier_group_of_In :
    (t u : NetworkTier) (vs : List AztecVersion)
    → ((v : AztecVersion) → In v vs → v.tier ≡ u)
    → length (tier_group t vs) ≡ (if tier_beq u t then length vs else 0)
length-tier_group_of_In t u [] h = ground arith
length-tier_group_of_In t u (v ∷ vs) h =
    let ih = length-tier_group_of_In t u vs (λ w m. h w (inr m)) in
    rw (h v (inl refl)) (ground arith)

evict_tier-tier :
    (tier : NetworkTier) (cached : List AztecVersion) (bundled v : AztecVersion)
    → In v (evict_tier tier cached bundled)
    → v.tier ≡ tier
evict_tier-tier tier cached bundled v h =
    (In-tier_candidates v bundled tier cached (In-evict_tier v bundled tier cached h).0).1

keep-append :
    (p : AztecVersion → Bool) (xs ys : List AztecVersion)
    → length (keep p (xs ++ ys)) ≡ length (keep p xs) + length (keep p ys)
keep-append p [] ys = omega arith
keep-append p (x ∷ xs) ys = ground (arith, keep-append p xs ys)

length-versions_to_evict :
    (t : NetworkTier) (order : List NetworkTier) (cached : List AztecVersion)
    (bundled : AztecVersion)
    → length (tier_group t (versions_to_evict order cached bundled))
      ≡ occurrences t order * length (evict_tier t cached bundled)
unfolding versions_to_evict
length-versions_to_evict t [] cached bundled = omega arith
length-versions_to_evict t (u ∷ order) cached bundled =
    let p = λ (v : AztecVersion). tier_beq v.tier t in
    let split =
      keep-append p (evict_tier u cached bundled) (versions_to_evict order cached bundled) in
    let own =
      length-tier_group_of_In t u (evict_tier u cached bundled)
        (evict_tier-tier u cached bundled) in
    let ih = length-versions_to_evict t order cached bundled in
    elim (Bool-cases (tier_beq u t)) [
      | inl same ↦
          let e = ap (λ w. length (evict_tier w cached bundled)) (tier_beq_sound u t same) in
          rw same (omega (arith, split, rw same at own, e, ih))
      | inr other ↦ rw other (omega (arith, split, rw other at own, ih))
    ]

-- After eviction by count a tier with a limit holds exactly as many versions as before, or exactly
-- its limit where that is less: the policy never keeps too many and never evicts without need. The
-- tiers are visited once each, and the bundled version stands in the cache once at most.
pub retention_exact :
    (t : NetworkTier) (limit : ℕ) (order : List NetworkTier) (cached : List AztecVersion)
    (bundled : AztecVersion)
    → retention_limit t ≡ some limit
    → occurrences t order ≡ 1
    → copies bundled cached ≤ 1
    → length (tier_group t cached) - length (tier_group t (versions_to_evict order cached bundled))
      ≡ (if leb (length (tier_group t cached)) limit then length (tier_group t cached) else limit)
unfolding evict_tier
retention_exact t limit order cached bundled has once single =
    let all = length-versions_to_evict t order cached bundled in
    let e = ap (λ l. length (evict_over l t cached bundled)) has in
    ground (arith, all, e, length-evict_over limit t cached bundled (limit-pos t limit has))
