-- ===== src/Leases/Exclusion.antt =====
-- What the lease registry of packages/accelerator/core/src/versions/leases.rs guarantees to proofs
-- and to cleanup passes, in every system that steps from the empty one can reach.
use aztec_accelerator.Prelude.{
  ◌<◌, ◌≤◌, ◌≡◌, ◌≢◌, refl, true, false, none, some, List, [], ◌∷◌, arith, nat_eq, list_eq,
  if◌then◌else◌, ◌&&◌,
}
use aztec_accelerator.Prelude.Lists.{count, contains}
use aztec_accelerator.Prelude.Maps.{lookup}
use aztec_accelerator.Prelude.Texts.{Text}
use aztec_accelerator.Leases.{ok, err, held_by_proof, being_evicted, acquire, begin_evict}
use aztec_accelerator.Leases.System.{System, init, Reach, here, next, Inv, Step-Inv}

Reach-Inv : {s : System} → Reach init s → Inv s
unfolding lookup
Reach-Inv here = λ v. (refl, refl)
Reach-Inv (next r st) = Step-Inv st (Reach-Inv r)

count-pos_of_contains : (v : Text) (xs : List Text) → contains v xs ≡ true → 0 < count v xs
count-pos_of_contains v [] h = cc
count-pos_of_contains v (x ∷ xs) h = ground (arith, count-pos_of_contains v xs)

count-zero_of_not_contains : (v : Text) (xs : List Text) → contains v xs ≡ false → count v xs ≡ 0
count-zero_of_not_contains v [] h = refl
count-zero_of_not_contains v (x ∷ xs) h = ground (arith, count-zero_of_not_contains v xs)

-- In every reachable system, no version has both a live lease and a live eviction reservation, and
-- no version has two live reservations.
pub lease_excludes_eviction :
    (s : System) (v : Text)
    → Reach init s
    → ((contains v s.leases && contains v s.reservations) ≡ false) × (count v s.reservations ≤ 1)
lease_excludes_eviction s v r =
    ground (
      arith,
      Reach-Inv r v,
      count-pos_of_contains v s.leases,
      count-pos_of_contains v s.reservations,
    )

-- In every reachable system, `acquire` gives a lease on the version exactly when no reservation on
-- it is alive, and a refused `acquire` leaves the registry as it was.
pub acquire_exact :
    (s : System) (v : Text)
    → Reach init s
    → ((acquire v s.registry).1
        ≡ (if contains v s.reservations then none else some (record { version = v })))
      × (contains v s.reservations ≡ true → (acquire v s.registry).0 ≡ s.registry)
unfolding acquire
acquire_exact s v r = ground (
  arith,
  Reach-Inv r v,
  count-zero_of_not_contains v s.reservations,
  count-pos_of_contains v s.reservations,
)

-- In every reachable system, `begin_evict` reserves the version exactly when no lease and no
-- reservation on it is alive; otherwise it says which of the two it met, and changes nothing.
pub begin_evict_exact :
    (s : System) (v : Text)
    → Reach init s
    → ((begin_evict v s.registry).1 ≡ (
        if contains v s.leases
        then err held_by_proof
        else if contains v s.reservations
        then err being_evicted
        else ok (record { version = v })))
      × ((begin_evict v s.registry).1 ≢ ok (record { version = v })
          → (begin_evict v s.registry).0 ≡ s.registry)
unfolding begin_evict
begin_evict_exact s v r = ground (
  arith,
  Reach-Inv r v,
  count-zero_of_not_contains v s.reservations,
  count-pos_of_contains v s.reservations,
  count-zero_of_not_contains v s.leases,
  count-pos_of_contains v s.leases,
)
