-- ===== src/Versions/SizeCap/Candidates.antt =====
-- What `versions_to_evict_for_size` of packages/accelerator/core/src/versions/version_policy.rs may
-- evict, and in which order.
use aztec_accelerator.Prelude.{
  ◌≡◌, ◌≢◌, ◌↔◌, ◌∙◌, ap, refl, Bool, true, false, not, Option, none, some, List, [], All, nat_eq,
  list_eq, ◌∷◌, arith, length,
}
use aztec_accelerator.Prelude.Members.{In, In-keep, keep-In}
use aztec_accelerator.Prelude.Sorting.{
  In-sort, sort-In, IsSorted, IsOrder, sort-IsSorted, length-keep-sort,
}
use aztec_accelerator.Prelude.Texts.{text_eq_iff}
use aztec_accelerator.Prelude.Lists.{keep}
use aztec_accelerator.Versions.Retention.Order.{KeyBelow, older-KeyBelow}
use aztec_accelerator.Versions.Retention.Oldest.{older-IsOrder}
use aztec_accelerator.Versions.Name.{AztecVersion}
use aztec_accelerator.Versions.Retention.{older}
use aztec_accelerator.Versions.SizeCap.{Sized, is_pinned, size_candidates}

-- No sort key stands before a smaller one.
abbrev pub IsOldestFirst : List Sized → Type 0
IsOldestFirst [] = Unit
IsOldestFirst (x ∷ xs) = All (λ y. KeyBelow x.0.sort_key y.0.sort_key) xs × IsOldestFirst xs

-- Neither the bundled version nor the one in use.
abbrev pub IsEvictable : AztecVersion → Option AztecVersion → AztecVersion → Type 0
IsEvictable bundled in_use v =
    (v.raw ≢ bundled.raw) × ((u : AztecVersion) → in_use ≡ some u → v.raw ≢ u.raw)

-- The candidates, each entry as often as the cache has it, from the oldest on.
pub record IsQueue (sized : List Sized) (bundled : AztecVersion) (in_use : Option AztecVersion)
    (candidates : List Sized) : Type 0 where
  pub sorted : IsOldestFirst candidates
  pub members : (e : Sized) → In e candidates ↔ (In e sized × IsEvictable bundled in_use e.0)
  pub counts :
      (p : Sized → Bool)
      → ((e : Sized) → p e ≡ true → IsEvictable bundled in_use e.0)
      → length (keep p candidates) ≡ length (keep p sized)

All-KeyBelow :
    (x : Sized) (xs : List Sized)
    → All (λ y. older x.0 y.0 ≡ true) xs
    → All (λ y. KeyBelow x.0.sort_key y.0.sort_key) xs
All-KeyBelow x [] h = tt
All-KeyBelow x (y ∷ ys) (h, k) = (older-KeyBelow x.0 y.0 h, All-KeyBelow x ys k)

oldest_first : (xs : List Sized) → IsSorted (λ a b. older a.0 b.0) xs → IsOldestFirst xs
oldest_first [] h = tt
oldest_first (x ∷ xs) (h, k) = (All-KeyBelow x xs h, oldest_first xs k)

pinned_sound :
    (bundled : AztecVersion) (in_use : Option AztecVersion) (v : AztecVersion)
    → is_pinned bundled in_use v ≡ false
    → IsEvictable bundled in_use v
pinned_sound bundled none v h =
    (λ e. ground (arith, text_eq_iff v.raw bundled.raw), λ u e. absurd (ground arith))
pinned_sound bundled (some w) v h = (
  λ e. ground (arith, text_eq_iff v.raw bundled.raw),
  λ u same e.
      let named : w.raw ≡ v.raw = ground (arith, same) in ground (arith, text_eq_iff w.raw v.raw),
)

pinned_complete :
    (bundled : AztecVersion) (in_use : Option AztecVersion) (v : AztecVersion)
    → IsEvictable bundled in_use v
    → is_pinned bundled in_use v ≡ false
pinned_complete bundled none v (other, free) = ground (arith, text_eq_iff v.raw bundled.raw)
pinned_complete bundled (some w) v (other, free) =
    ground (arith, text_eq_iff v.raw bundled.raw, text_eq_iff w.raw v.raw, free w refl)

length-keep-keep :
    (p q : Sized → Bool) (xs : List Sized)
    → ((e : Sized) → p e ≡ true → q e ≡ true)
    → length (keep p (keep q xs)) ≡ length (keep p xs)
length-keep-keep p q [] f = refl
length-keep-keep p q (x ∷ xs) f = ground (arith, length-keep-keep p q xs f, f x)

pub size_candidates-IsQueue :
    (sized : List Sized) (bundled : AztecVersion) (in_use : Option AztecVersion)
    → IsQueue sized bundled in_use (size_candidates sized bundled in_use)
unfolding size_candidates
size_candidates-IsQueue sized bundled in_use =
    let below : Sized → Sized → Bool = λ a b. older a.0 b.0 in
    let free : Sized → Bool = λ e. not (is_pinned bundled in_use e.0) in
    let order : IsOrder below = record {
      total = λ a b. older-IsOrder.total a.0 b.0;
      trans = λ a b c. older-IsOrder.trans a.0 b.0 c.0;
    } in
    record {
      sorted = oldest_first _ (sort-IsSorted below order (keep free sized));
      members = λ e. (
        λ h.
            let (cached, unpinned) = In-keep free e sized (In-sort below e _ h) in
            (cached, pinned_sound bundled in_use e.0 (ground arith)),
        λ (cached, evictable).
            sort-In below e _
              (keep-In free e sized cached (ap not (pinned_complete bundled in_use e.0 evictable))),
      );
      counts = λ p h.
          length-keep-sort below p (keep free sized)
          ∙ length-keep-keep p free sized
              (λ e q. ap not (pinned_complete bundled in_use e.0 (h e q)));
    }
