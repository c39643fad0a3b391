-- ===== src/Authorization/Manager/Invariant/Removal.antt =====
-- Removing a pending request of packages/accelerator/core/src/authorization.rs keeps the invariant.
use aztec_accelerator.Prelude.{
  ◌≡◌, inl, inr, not, Option, none, some, List, [], ◌∷◌, ◌==◌, nat_eq, list_eq, if◌then◌else◌,
  arith, Option-cases,
}
use aztec_accelerator.Prelude.Lists.{keep, count}
use aztec_accelerator.Prelude.Maps.{lookup, lookup-remove, length-remove}
use aztec_accelerator.Prelude.Texts.{Text, text_eq_iff}
use aztec_accelerator.Authorization.Manager.{
  PendingRequest, PendingState, is_id, pop_front, remove_known, remove_found, remove_request,
}
use aztec_accelerator.Authorization.Manager.Invariant.{Inv, slots, count-keep_others}

-- What the slots hold after the request `id` is removed.
abbrev pub slots_without : Text → Option Text → List Text → List Text
slots_without id active queue =
    if is_id active id
    then slots (pop_front queue).0 (pop_front queue).1
    else slots active (keep (λ q. not (q == id)) queue)

count-slots_without :
    (id j : Text) (active : Option Text) (queue : List Text)
    → (active ≡ none → queue ≡ [])
    → count id (slots active queue) ≡ 1
    → count j (slots_without id active queue)
      ≡ (if id == j then 0 else count j (slots active queue))
unfolding pop_front
count-slots_without id j none queue idle once =
    ground (arith, count-keep_others id j queue, text_eq_iff id j)
count-slots_without id j (some a) [] idle once =
    ground (arith, text_eq_iff id j, text_eq_iff a id, text_eq_iff a j)
count-slots_without id j (some a) (q ∷ queue) idle once = ground (
  arith,
  count-keep_others id j (q ∷ queue),
  text_eq_iff id j,
  text_eq_iff a id,
  text_eq_iff a j,
  text_eq_iff q id,
  text_eq_iff q j,
)

pub remove_known-Inv :
    (st : PendingState) (id : Text) (req : PendingRequest)
    → Inv st
    → lookup id st.by_request ≡ some req
    → Inv (remove_known st id req).0
unfolding remove_known pop_front
remove_known-Inv st id req h known = record {
  linked = λ o j e. ground (
    arith,
    h.linked o j,
    h.back req.origin id,
    text_eq_iff req.origin o,
    text_eq_iff id j,
    lookup-remove req.origin o st.by_origin,
    lookup-remove id j st.by_request,
  );
  back = λ o j e. ground (
    arith,
    h.back o j,
    h.linked o j,
    h.back req.origin id,
    text_eq_iff req.origin o,
    text_eq_iff id j,
    lookup-remove req.origin o st.by_origin,
    lookup-remove id j st.by_request,
  );
  slotted = λ j. ground (
    arith,
    h.slotted j,
    h.slotted id,
    text_eq_iff id j,
    lookup-remove id j st.by_request,
    count-slots_without id j st.active st.queue h.idle,
  );
  idle = ground (arith, h.idle);
  piggybacks = λ j. ground (arith, h.piggybacks j, lookup-remove id j st.by_request);
  origins = ground (arith, h.origins, length-remove id st.by_request);
  cooled = ground (arith, h.cooled);
}

pub remove_request-Inv : (st : PendingState) (id : Text) → Inv st → Inv (remove_request st id).0
unfolding remove_request
remove_request-Inv st id h = elim (Option-cases (lookup id st.by_request)) [
  | inl e ↦ rw (e, remove_found) h
  | inr (req, e) ↦ rw (e, remove_found) (remove_known-Inv st id req h e)
]
