-- ===== src/Versions/SizeCap/Shortest.antt =====
-- `versions_to_evict_for_size` of packages/accelerator/core/src/versions/version_policy.rs evicts the
-- shortest run of oldest versions that brings the cache within its cap.
use aztec_accelerator.Prelude.{
  ℕ, zero, suc, ◌+◌, ◌-◌, ◌≤◌, ◌<◌, ◌≡◌, refl, ◌⊎◌, inl, inr, true, false, not, Option, List, [],
  nat_eq, list_eq, ◌∷◌, leb, if◌then◌else◌, arith, length, take,
}
use aztec_accelerator.Prelude.Members.{In, In-keep, In-take}
use aztec_accelerator.Prelude.Numbers.{u64_max}
use aztec_accelerator.Prelude.Sorting.{In-sort, sort-two}
use aztec_accelerator.Versions.Name.{AztecVersion}
use aztec_accelerator.Versions.Retention.{older}
use aztec_accelerator.Versions.SizeCap.Candidates.{IsQueue, size_candidates-IsQueue}
use aztec_accelerator.Versions.SizeCap.{
  Sized, saturated_total, is_pinned, size_candidates, evict_until, versions_to_evict_for_size,
}

abbrev pub bytes_of : List Sized → ℕ
bytes_of [] = 0
bytes_of ((_, n) ∷ sized) = n + bytes_of sized

abbrev pub names_of : List Sized → List AztecVersion
names_of [] = []
names_of ((v, _) ∷ sized) = v ∷ names_of sized

saturated_total-eq :
    (acc : ℕ) (sized : List Sized)
    → acc + bytes_of sized ≤ u64_max
    → saturated_total acc sized ≡ acc + bytes_of sized
unfolding saturated_total
saturated_total-eq acc [] h = omega arith
saturated_total-eq acc ((v, n) ∷ sized) h = ground (arith, saturated_total-eq (acc + n) sized)

-- The number of versions that the loop evicts.
rounds : ℕ → ℕ → List Sized → ℕ
rounds max_total total [] = 0
rounds max_total total ((_, bytes) ∷ rest) =
    let later = rounds max_total (total - bytes) rest in
    if leb total max_total then 0 else suc later

evict_until-take :
    (max_total total : ℕ) (rest : List Sized)
    → evict_until max_total total rest ≡ names_of (take (rounds max_total total rest) rest)
unfolding evict_until rounds
evict_until-take m total [] = refl
evict_until-take m total ((v, n) ∷ rest) = ground (arith, evict_until-take m (total - n) rest)

rounds-le : (max_total total : ℕ) (rest : List Sized) → rounds max_total total rest ≤ length rest
unfolding rounds
rounds-le m total [] = omega arith
rounds-le m total ((v, n) ∷ rest) = ground (arith, rounds-le m (total - n) rest)

-- Where the loop stops it is within the cap, or nothing is left to evict.
rounds-enough :
    (max_total total : ℕ) (rest : List Sized)
    → let k = rounds max_total total rest in
      (total - bytes_of (take k rest) ≤ max_total) ⊎ (k ≡ length rest)
unfolding rounds
rounds-enough m total [] = inr refl
rounds-enough m total ((v, n) ∷ rest) = ground (arith, rounds-enough m (total - n) rest)

-- One round fewer would have left it above the cap.
rounds-needed :
    (max_total total : ℕ) (rest : List Sized) (j : ℕ)
    → j < rounds max_total total rest
    → max_total < total - bytes_of (take j rest)
unfolding rounds
rounds-needed m total [] j h = absurd (omega arith)
rounds-needed m total ((v, n) ∷ rest) zero h = ground arith
rounds-needed m total ((v, n) ∷ rest) (suc j) h = ground (arith, rounds-needed m (total - n) rest j)

evict_until_within :
    (max_total total : ℕ) (rest : List Sized)
    → leb total max_total ≡ true
    → evict_until max_total total rest ≡ []
unfolding evict_until
evict_until_within m total [] h = refl
evict_until_within m total ((v, n) ∷ rest) h = ground arith

for_size-evict_until :
    (sized : List Sized) (bundled : AztecVersion) (in_use : Option AztecVersion) (max_total : ℕ)
    → versions_to_evict_for_size sized bundled in_use max_total
      ≡ evict_until max_total (saturated_total 0 sized) (size_candidates sized bundled in_use)
unfolding versions_to_evict_for_size
for_size-evict_until sized bundled in_use m =
    let total = saturated_total 0 sized in
    ground (arith, evict_until_within m total (size_candidates sized bundled in_use))

-- With sizes that sum below 2^64, eviction by size takes some number k of the candidates, from the
-- first on. The candidates are exactly the cached versions that are neither bundled nor in use, each
-- as often as it is cached, in the order of their sort keys, the lowest first. What stays is within
-- the cap, or every candidate is evicted; and any smaller number of them would have left the cache
-- above the cap.
pub evicts_shortest_prefix :
    (sized : List Sized) (bundled : AztecVersion) (in_use : Option AztecVersion) (max_total : ℕ)
    → bytes_of sized ≤ u64_max
    → (candidates : List Sized) × IsQueue sized bundled in_use candidates
      × ((k : ℕ) × (versions_to_evict_for_size sized bundled in_use max_total
            ≡ names_of (take k candidates))
          × ((bytes_of sized - bytes_of (take k candidates) ≤ max_total) ⊎ (k ≡ length candidates))
          × ((j : ℕ) → j < k → max_total < bytes_of sized - bytes_of (take j candidates)))
evicts_shortest_prefix sized bundled in_use m h =
    let candidates = size_candidates sized bundled in_use in
    let total = bytes_of sized in
    let exact : saturated_total 0 sized ≡ total = omega (arith, saturated_total-eq 0 sized) in
    let k = rounds m total candidates in
    let same = for_size-evict_until sized bundled in_use m in
    (
      candidates,
      size_candidates-IsQueue sized bundled in_use,
      (
        k,
        rw (same, exact) (evict_until-take m total candidates),
        rounds-enough m total candidates,
        rounds-needed m total candidates,
      ),
    )

In-names_of :
    (x : AztecVersion) (sized : List Sized) → In x (names_of sized) → (n : ℕ) × In (x, n) sized
In-names_of x [] h = elim h [ ]
In-names_of x ((v, n) ∷ sized) (inl e) = (n, inl (rw e refl))
In-names_of x ((v, n) ∷ sized) (inr h) = let (m, k) = In-names_of x sized h in (m, inr k)

-- Eviction by size spares the bundled version and the one in use, whatever the sizes, and evicts
-- only what is cached.
pub size_evictions_spare_pinned :
    (sized : List Sized) (bundled : AztecVersion) (in_use : Option AztecVersion) (max_total : ℕ)
    (x : AztecVersion)
    → In x (versions_to_evict_for_size sized bundled in_use max_total)
    → (is_pinned bundled in_use x ≡ false) × ((n : ℕ) × In (x, n) sized)
unfolding size_candidates
size_evictions_spare_pinned sized bundled in_use m x h =
    let total = saturated_total 0 sized in
    let candidates = size_candidates sized bundled in_use in
    let listed : In x (names_of (take (rounds m total candidates) candidates)) =
      rw (for_size-evict_until sized bundled in_use m, evict_until-take m total candidates) at h in
    let (n, taken) = In-names_of x _ listed in
    let (cached, free) =
      In-keep (λ e. not (is_pinned bundled in_use e.0)) (x, n) sized
        (In-sort (λ a b. older a.0 b.0) (x, n) _ (In-take _ (x, n) candidates taken)) in
    (ground arith, (n, cached))

two_candidates :
    (v w bundled : AztecVersion) (in_use : Option AztecVersion) (a n : ℕ)
    → is_pinned bundled in_use v ≡ false
    → is_pinned bundled in_use w ≡ false
    → older v w ≡ true
    → size_candidates ((v, a) ∷ ((w, n) ∷ [])) bundled in_use ≡ (v, a) ∷ ((w, n) ∷ [])
unfolding size_candidates
two_candidates v w bundled in_use a n pv pw o =
    rw (pv, pw) (sort-two (λ x y. older x.0 y.0) (v, a) (w, n) o)

-- Where the sum of the sizes saturates the ceiling is missed: with two versions that may be evicted,
-- the older one of the largest `u64` size, only that one is evicted, however large the other is.
pub saturation_misses_cap :
    (v w bundled : AztecVersion) (in_use : Option AztecVersion) (n max_total : ℕ)
    → is_pinned bundled in_use v ≡ false
    → is_pinned bundled in_use w ≡ false
    → older v w ≡ true
    → max_total < u64_max
    → versions_to_evict_for_size ((v, u64_max) ∷ ((w, n) ∷ [])) bundled in_use max_total ≡ v ∷ []
unfolding saturated_total evict_until
saturation_misses_cap v w bundled in_use n m pv pw o h =
    rw
      (
        for_size-evict_until ((v, u64_max) ∷ ((w, n) ∷ [])) bundled in_use m,
        two_candidates v w bundled in_use u64_max n pv pw o,
      )
      (ground arith)
