-- ===== src/Leases/Tests.antt =====
-- Runs of the lease registry of packages/accelerator/core/src/versions/leases.rs at small systems.
use aztec_accelerator.Prelude.{◌≡◌, refl, false, none, some, [], ◌∷◌, ◌&&◌, ◌≤◌, nat_eq, list_eq}
use aztec_accelerator.Prelude.Equality.{list_beq}
use aztec_accelerator.Prelude.Lists.{count, contains}
use aztec_accelerator.Prelude.Maps.{lookup, insert, remove}
use aztec_accelerator.Prelude.Texts.{Text, codes}
use aztec_accelerator.Leases.{held, evicting, acquire, begin_evict, drop_lease, drop_reservation}
use aztec_accelerator.Leases.System.{System, init, Reach, here, next, acquired, reserved}
use aztec_accelerator.Leases.Exclusion.{lease_excludes_eviction}

abbrev old : Text
old = codes "5.0.0-rc.1"

abbrev fresh : Text
fresh = codes "5.0.0"

-- A proof holds `old` twice, and a cleanup pass deletes `fresh`.
abbrev busy : System
busy = record {
  registry = (fresh, evicting) ∷ (old, held 2) ∷ [];
  leases = old ∷ old ∷ [];
  reservations = fresh ∷ [];
}

busy_reached : Reach init busy
unfolding acquire begin_evict lookup insert list_beq
busy_reached =
    next (next (next here (acquired _ old _ _ refl)) (acquired _ old _ _ refl))
      (reserved _ fresh _ _ refl)

released_once : lookup old (drop_lease (record { version = old }) busy.registry) ≡ some (held 1)
unfolding drop_lease lookup insert remove list_beq
released_once = refl

reservation_dropped :
    lookup fresh (drop_reservation (record { version = fresh }) busy.registry) ≡ none
unfolding drop_reservation lookup insert remove list_beq
reservation_dropped = refl

lease_excludes_eviction_example :
    ((contains old busy.leases && contains old busy.reservations) ≡ false)
    × (count old busy.reservations ≤ 1)
lease_excludes_eviction_example = lease_excludes_eviction busy old busy_reached
