-- ===== src/Leases/Eviction.antt =====
-- Reserving a version for deletion and dropping the reservation again, in
-- packages/accelerator/core/src/versions/leases.rs.
use aztec_accelerator.Prelude.{◌≡◌, ◌⊎◌, inl, inr, refl, Option, none, some, arith, nat_eq, list_eq}
use aztec_accelerator.Prelude.Maps.{lookup, insert, lookup-insert, lookup-remove}
use aztec_accelerator.Prelude.Texts.{Text, text_eq_iff}
use aztec_accelerator.Leases.{
  State, held, evicting, Registry, Contended, held_by_proof, being_evicted, ok, err, begin_evict,
  begin_evict_from, drop_reservation, after_eviction,
}

begin_evict_from-cases :
    (o : Option State) (v : Text) (m : Registry)
    → ((o ≡ none) × (begin_evict_from o v m ≡ (insert v evicting m, ok (record { version = v }))))
      ⊎ ((why : Contended) × (begin_evict_from o v m ≡ (m, err why)))
unfolding begin_evict_from
begin_evict_from-cases none v m = inl (refl, refl)
begin_evict_from-cases (some (held n)) v m = inr (held_by_proof, refl)
begin_evict_from-cases (some evicting) v m = inr (being_evicted, refl)

-- A reservation is made exactly for a version that nobody holds and nobody deletes.
pub begin_evict-cases :
    (v : Text) (m : Registry)
    → ((lookup v m ≡ none) × (begin_evict v m ≡ (insert v evicting m, ok (record { version = v }))))
      ⊎ ((why : Contended) × (begin_evict v m ≡ (m, err why)))
unfolding begin_evict
begin_evict-cases v m = begin_evict_from-cases (lookup v m) v m

-- Dropping the reservation leaves every entry as it was before it.
pub lookup-drop_reservation :
    (v w : Text) (m : Registry)
    → lookup v m ≡ none
    → lookup w (drop_reservation (record { version = v }) (insert v evicting m)) ≡ lookup w m
unfolding drop_reservation after_eviction
lookup-drop_reservation v w m free =
    let own : lookup v (insert v evicting m) ≡ some evicting =
      ground (arith, lookup-insert v v evicting m, text_eq_iff v v) in
    rw own (
      ground (
        arith,
        lookup-remove v w (insert v evicting m),
        lookup-insert v w evicting m,
        text_eq_iff v w,
      ))
