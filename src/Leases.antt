-- ===== src/Leases.antt =====
-- packages/accelerator/core/src/versions/leases.rs: the registry of in-use leases of cached `bb`
-- versions. The mutex makes each operation one step on the registry, so an operation is a function
-- from the registry to the new one. A guard is the value that its `Drop` consumes.
pub mod System
pub mod Exclusion
pub mod Eviction
pub mod Tests
use aztec_accelerator.Prelude.{ℕ, ◌+◌, ◌-◌, Option, none, some, ltb, if◌then◌else◌, nat_eq, list_eq}
use aztec_accelerator.Prelude.Maps.{Map, lookup, insert, remove}
use aztec_accelerator.Prelude.Texts.{Text}

pub data State : Type 0 where
  held : ℕ → State
  evicting : State

abbrev pub Registry : Type 0
Registry = Map Text State

pub record Lease : Type 0 where
  pub version : Text

pub record EvictReservation : Type 0 where
  pub version : Text

pub data Contended : Type 0 where
  held_by_proof being_evicted : Contended

-- `Result<EvictReservation, Contended>`
pub data Reserved : Type 0 where
  ok : EvictReservation → Reserved
  err : Contended → Reserved

-- `Drop for Lease`: only a count above one survives.
after_release : Option State → Text → Registry → Registry
after_release (some (held n)) version registry =
    if ltb 1 n then insert version (held (n - 1)) registry else remove version registry
after_release _ version registry = remove version registry

pub drop_lease : Lease → Registry → Registry
unfolding after_release
drop_lease lease registry = after_release (lookup lease.version registry) lease.version registry

-- `Drop for EvictReservation`: it clears nothing but an `Evicting` entry.
after_eviction : Option State → Text → Registry → Registry
after_eviction (some evicting) version registry = remove version registry
after_eviction _ version registry = registry

pub drop_reservation : EvictReservation → Registry → Registry
unfolding after_eviction
drop_reservation r registry = after_eviction (lookup r.version registry) r.version registry

acquire_from : Option State → Text → Registry → Registry × Option Lease
acquire_from (some evicting) version registry = (registry, none)
acquire_from (some (held n)) version registry =
    (insert version (held (n + 1)) registry, some (record { version = version }))
acquire_from none version registry =
    (insert version (held 1) registry, some (record { version = version }))

pub acquire : Text → Registry → Registry × Option Lease
unfolding acquire_from
acquire version registry = acquire_from (lookup version registry) version registry

begin_evict_from : Option State → Text → Registry → Registry × Reserved
begin_evict_from (some (held _)) version registry = (registry, err held_by_proof)
begin_evict_from (some evicting) version registry = (registry, err being_evicted)
begin_evict_from none version registry =
    (insert version evicting registry, ok (record { version = version }))

pub begin_evict : Text → Registry → Registry × Reserved
unfolding begin_evict_from
begin_evict version registry = begin_evict_from (lookup version registry) version registry
