-- ===== src/Leases/System.antt =====
-- The registry of packages/accelerator/core/src/versions/leases.rs with the guards that are alive:
-- proofs and cleanup passes as interleaved steps, and the invariant that joins the map to them.
use aztec_accelerator.Prelude.{
  ℕ, ◌+◌, ◌-◌, ◌<◌, ◌≡◌, ◌≢◌, true, Option, none, some, List, [], ◌∷◌, arith, ◌==◌, nat_eq, list_eq,
  if◌then◌else◌, ltb,
}
use aztec_accelerator.Prelude.Lists.{count, contains}
use aztec_accelerator.Prelude.Maps.{lookup, lookup-insert, lookup-remove}
use aztec_accelerator.Prelude.Texts.{Text, text_eq_iff}
use aztec_accelerator.Leases.{
  State, held, evicting, Registry, Lease, EvictReservation, ok, acquire, drop_lease, begin_evict,
  drop_reservation, acquire_from, after_release,
}

-- The registry with the versions of the live leases and of the live reservations.
pub record System : Type 0 where
  pub registry : Registry
  pub leases : List Text
  pub reservations : List Text

abbrev pub init : System
init = record { registry = []; leases = []; reservations = [] }

-- The list without one occurrence.
pub drop_one : Text → List Text → List Text
drop_one v [] = []
drop_one v (x ∷ xs) = if x == v then xs else x ∷ drop_one v xs

-- What can happen next: an operation that succeeds makes a guard, and only a live guard is dropped.
-- An operation that is refused leaves the registry as it was, and is no step.
pub data Step : System → System → Type 0 where
  acquired :
      (s : System) (v : Text) (r : Registry) (l : Lease)
      → acquire v s.registry ≡ (r, some l)
      → Step s (record s { registry = r; leases = l.version ∷ s.leases })
  released :
      (s : System) (v : Text)
      → contains v s.leases ≡ true
      → Step s (record s {
        registry = drop_lease (record { version = v }) s.registry;
        leases = drop_one v s.leases;
      })
  reserved :
      (s : System) (v : Text) (r : Registry) (e : EvictReservation)
      → begin_evict v s.registry ≡ (r, ok e)
      → Step s (record s { registry = r; reservations = e.version ∷ s.reservations })
  finished :
      (s : System) (v : Text)
      → contains v s.reservations ≡ true
      → Step s (record s {
        registry = drop_reservation (record { version = v }) s.registry;
        reservations = drop_one v s.reservations;
      })

pub data Reach (s : System) : System → Type 0 where
  here : Reach s s
  next : {t u : System} → Reach s t → Step t u → Reach s u

-- What an entry says of the guards: their numbers of leases and of reservations.
abbrev pub Agrees : Option State → ℕ → ℕ → Type 0
Agrees none leases reservations = (leases ≡ 0) × (reservations ≡ 0)
Agrees (some (held n)) leases reservations = (leases ≡ n) × (0 < n) × (reservations ≡ 0)
Agrees (some evicting) leases reservations = (leases ≡ 0) × (reservations ≡ 1)

abbrev pub Inv : System → Type 0
Inv s = (v : Text) → Agrees (lookup v s.registry) (count v s.leases) (count v s.reservations)

count-drop_one :
    (v w : Text) (xs : List Text)
    → count w (drop_one v xs) ≡ (if v == w then count w xs - 1 else count w xs)
unfolding drop_one
count-drop_one v w [] = ground arith
count-drop_one v w (x ∷ xs) =
    ground (arith, count-drop_one v w xs, text_eq_iff x v, text_eq_iff x w, text_eq_iff v w)

count-pos_of_contains : (v : Text) (xs : List Text) → contains v xs ≡ true → 0 < count v xs
count-pos_of_contains v [] h = cc
count-pos_of_contains v (x ∷ xs) h = ground (arith, count-pos_of_contains v xs)

-- The number of proofs that an entry counts.
abbrev pub holders : Option State → ℕ
holders (some (held n)) = n
holders _ = 0

lookup-acquire_from :
    (o : Option State) (v w : Text) (m r : Registry) (l : Lease)
    → acquire_from o v m ≡ (r, some l)
    → (l.version ≡ v)
      × (o ≢ some evicting)
      × (lookup w r ≡ (if v == w then some (held (holders o + 1)) else lookup w m))
unfolding acquire_from
lookup-acquire_from none v w m r l e = ground (arith, lookup-insert v w (held 1) m)
lookup-acquire_from (some (held n)) v w m r l e = ground (arith, lookup-insert v w (held (n + 1)) m)
lookup-acquire_from (some evicting) v w m r l e = cc

lookup-after_release :
    (o : Option State) (v w : Text) (m : Registry)
    → lookup w (after_release o v m) ≡ (
        if v == w
        then (if ltb 1 (holders o) then some (held (holders o - 1)) else none)
        else lookup w m)
unfolding after_release
lookup-after_release none v w m = ground (arith, lookup-remove v w m)
lookup-after_release (some (held n)) v w m =
    ground (arith, lookup-remove v w m, lookup-insert v w (held (n - 1)) m)
lookup-after_release (some evicting) v w m = ground (arith, lookup-remove v w m)

pub Step-Inv : {s t : System} → Step s t → Inv s → Inv t
unfolding acquire drop_lease begin_evict drop_reservation
Step-Inv (acquired s v r l e) h w = ground (
  arith,
  h w,
  h v,
  text_eq_iff v w,
  lookup-acquire_from (lookup v s.registry) v w s.registry r l e,
)
Step-Inv (released s v c) h w = ground (
  arith,
  h w,
  h v,
  text_eq_iff v w,
  lookup-after_release (lookup v s.registry) v w s.registry,
  count-drop_one v w s.leases,
  count-pos_of_contains v s.leases c,
)
Step-Inv (reserved s v r e q) h w =
    ground (arith, h w, h v, text_eq_iff v w, lookup-insert v w evicting s.registry)
Step-Inv (finished s v c) h w = ground (
  arith,
  h w,
  h v,
  text_eq_iff v w,
  lookup-remove v w s.registry,
  count-drop_one v w s.reservations,
  count-pos_of_contains v s.reservations c,
)
