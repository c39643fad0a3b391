-- ===== src/Authorization/Manager/Fifo.antt =====
-- The order of the consent popups of packages/accelerator/core/src/authorization.rs: the active
-- request and the queue behind it as one list.
use aztec_accelerator.Prelude.{
  ℕ, ◌≡◌, inl, inr, refl, true, false, not, Option, none, some, List, [], ◌∷◌, ◌++◌, ◌==◌, nat_eq,
  list_eq, arith, Option-cases, Bool-cases, sym, ◌∙◌,
}
use aztec_accelerator.Prelude.Lists.{keep, count}
use aztec_accelerator.Prelude.Maps.{lookup}
use aztec_accelerator.Prelude.Texts.{Text}
use aztec_accelerator.Authorization.Manager.{
  AuthDecision, PendingRequest, PendingState, is_id, pop_front, remove_known, remove_found,
  remove_request, resolve, settle, Requested, accepted, refused, request, request_new, request_live,
  join, is_cooling_down, insert_request,
}
use aztec_accelerator.Authorization.Manager.Invariant.{Inv, slots}
use aztec_accelerator.Authorization.Manager.Invariant.Removal.{slots_without}
use aztec_accelerator.Authorization.Manager.Arbiter.{
  resolve_removed-some, remove_known-removed, by_request-settle,
}

-- The popups in the order in which they become actionable.
abbrev pub popups : PendingState → List Text
popups st = slots st.active st.queue

abbrev others : Text → List Text → List Text
others id = keep (λ q. not (q == id))

others-absent : (id : Text) (xs : List Text) → count id xs ≡ 0 → others id xs ≡ xs
others-absent id [] h = refl
others-absent id (x ∷ xs) h = ground (arith, others-absent id xs)

slots-pop_front : (queue : List Text) → slots (pop_front queue).0 (pop_front queue).1 ≡ queue
unfolding pop_front
slots-pop_front [] = refl
slots-pop_front (id ∷ ids) = refl

slots_without-others :
    (id : Text) (active : Option Text) (queue : List Text)
    → count id (slots active queue) ≡ 1
    → slots_without id active queue ≡ others id (slots active queue)
slots_without-others id none queue once = refl
slots_without-others id (some a) queue once = elim (Bool-cases (a == id)) [
  | inl e ↦ rw e (slots-pop_front queue ∙ sym (others-absent id queue (ground arith)))
  | inr e ↦ rw e refl
]

popups-remove_known :
    (st : PendingState) (id : Text) (req : PendingRequest)
    → popups (remove_known st id req).0 ≡ slots_without id st.active st.queue
unfolding remove_known
popups-remove_known st id req = elim (Bool-cases (is_id st.active id)) [
  | inl e ↦ rw e refl
  | inr e ↦ rw e refl
]

popups-settle :
    (decision : AuthDecision) (st : PendingState) (origin : Text) (now : ℕ)
    → popups (settle decision st origin now) ≡ popups st
popups-settle decision st origin now =
    let (_, _, active, queue) = by_request-settle decision st origin now in rw (active, queue) refl

popups-resolve :
    (st : PendingState) (id : Text) (decision : AuthDecision) (now : ℕ)
    → Inv st
    → popups (resolve st id decision now).0 ≡ others id (popups st)
unfolding resolve remove_request
popups-resolve st id decision now h = elim (Option-cases (lookup id st.by_request)) [
  | inl e ↦ rw (e, remove_found) (sym (others-absent id (popups st) (ground (arith, h.slotted id))))
  | inr (req, e) ↦
      let (system, _) =
        resolve_removed-some (remove_known st id req) req _ decision now
          (remove_known-removed st id req) in
      rw (e, remove_found)
        (rw system (
          popups-settle decision _ req.origin now
          ∙ popups-remove_known st id req
          ∙ slots_without-others id st.active st.queue (ground (arith, h.slotted id))))
]

-- What the popups are after an answer to `request`.
abbrev pub with_popup : Requested → List Text → List Text
with_popup (accepted tx id true active) ids = ids ++ id ∷ []
with_popup (accepted tx id false active) ids = ids
with_popup (refused e) ids = ids

popups-insert_request :
    (st : PendingState) (origin id : Text) (tx : ℕ)
    → (st.active ≡ none → st.queue ≡ [])
    → popups (insert_request st origin id tx).0 ≡ popups st ++ id ∷ []
unfolding insert_request
popups-insert_request st origin id tx idle = ground arith

popups-request_live :
    (st : PendingState) (origin fresh : Text) (tx : ℕ)
    → (st.active ≡ none → st.queue ≡ [])
    → let (st', answer) = request_live st origin fresh tx in
      popups st' ≡ with_popup answer (popups st)
unfolding request_live request_new join
popups-request_live st origin fresh tx idle =
    ground (arith, popups-insert_request st origin fresh tx idle)

-- The popups become actionable in the order in which they were opened: a request adds its popup at
-- the end, and adds none if it joins a pending one or is refused; resolving a request takes out that
-- one popup, at any place, and leaves the others in their order.
pub popups_fifo :
    (st : PendingState) (origin fresh id : Text) (now tx : ℕ) (decision : AuthDecision)
    → Inv st
    → (let (st', answer) = request st origin now fresh tx in
        popups st' ≡ with_popup answer (popups st))
      × (popups (resolve st id decision now).0 ≡ keep (λ q. not (q == id)) (popups st))
unfolding request is_cooling_down
popups_fifo st origin fresh id now tx decision h = (
  ground (arith, popups-request_live (is_cooling_down st origin now).0 origin fresh tx h.idle),
  popups-resolve st id decision now h,
)
