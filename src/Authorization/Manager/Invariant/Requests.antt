-- ===== src/Authorization/Manager/Invariant/Requests.antt =====
-- A request of packages/accelerator/core/src/authorization.rs keeps the invariant: it is refused, joins a pending one, or is inserted.
use aztec_accelerator.Prelude.{
  ℕ, ◌<◌, ◌≡◌, inl, inr, none, some, [], ◌∷◌, ◌++◌, leb, length, nat_eq, list_eq, arith,
  Option-cases, Bool-cases,
}
use aztec_accelerator.Prelude.Lists.{length-append}
use aztec_accelerator.Prelude.Maps.{lookup, lookup-insert, length-insert, length-insert-some}
use aztec_accelerator.Prelude.Texts.{Text, text_eq_iff}
use aztec_accelerator.Authorization.Manager.{
  PendingRequest, PendingState, insert_request, is_cooling_down, request, request_new, request_live,
  join, max_pending_origins,
}
use aztec_accelerator.Authorization.Manager.Invariant.{Inv, count-append}
use aztec_accelerator.Authorization.Manager.Invariant.Cooldowns.{is_cooling_down-Inv}

insert_request-Inv :
    (st : PendingState) (origin id : Text) (tx : ℕ)
    → Inv st
    → lookup id st.by_request ≡ none
    → lookup origin st.by_origin ≡ none
    → length st.by_request < max_pending_origins
    → Inv (insert_request st origin id tx).0
unfolding insert_request
insert_request-Inv st origin id tx h fresh new room =
    let req : PendingRequest = record { origin = origin; senders = tx ∷ [] } in
    record {
      linked = λ o j e. ground (
        arith,
        h.linked o j,
        h.back o id,
        text_eq_iff origin o,
        text_eq_iff id j,
        lookup-insert origin o id st.by_origin,
        lookup-insert id j req st.by_request,
      );
      back = λ o j e. ground (
        arith,
        h.back o j,
        h.linked o j,
        text_eq_iff origin o,
        text_eq_iff id j,
        lookup-insert origin o id st.by_origin,
        lookup-insert id j req st.by_request,
      );
      slotted = λ j. ground (
        arith,
        h.slotted j,
        h.idle,
        text_eq_iff id j,
        count-append j st.queue (id ∷ []),
        lookup-insert id j req st.by_request,
      );
      idle = ground arith;
      piggybacks = λ j. ground (arith, h.piggybacks j, lookup-insert id j req st.by_request);
      origins = ground (arith, length-insert id req st.by_request);
      cooled = ground (arith, h.cooled);
    }

join-Inv :
    (st : PendingState) (id : Text) (req : PendingRequest) (tx : ℕ)
    → Inv st
    → lookup id st.by_request ≡ some req
    → Inv (join st id req tx).0
unfolding join
join-Inv st id req tx h known =
    let req' : PendingRequest = record req { senders = req.senders ++ tx ∷ [] } in
    record {
      linked = λ o j e.
          ground (arith, h.linked o j, text_eq_iff id j, lookup-insert id j req' st.by_request);
      back = λ o j e.
          ground (arith, h.back o j, text_eq_iff id j, lookup-insert id j req' st.by_request);
      slotted =
          λ j. ground (arith, h.slotted j, text_eq_iff id j, lookup-insert id j req' st.by_request);
      idle = ground (arith, h.idle);
      piggybacks = λ j. ground (
        arith,
        h.piggybacks j,
        text_eq_iff id j,
        lookup-insert id j req' st.by_request,
        length-append req.senders (tx ∷ []),
      );
      origins = ground (arith, h.origins, length-insert-some id req' st.by_request req known);
      cooled = ground (arith, h.cooled);
    }

request_new-Inv :
    (st : PendingState) (origin fresh : Text) (tx : ℕ)
    → Inv st
    → lookup fresh st.by_request ≡ none
    → lookup origin st.by_origin ≡ none
    → Inv (request_new st origin fresh tx).0
unfolding request_new
request_new-Inv st origin fresh tx h unused new =
    elim (Bool-cases (leb max_pending_origins (length st.by_request))) [
      | inl full ↦ rw full h
      | inr room ↦ rw room (insert_request-Inv st origin fresh tx h unused new (ground arith))
    ]

request_live-Inv :
    (st : PendingState) (origin fresh : Text) (tx : ℕ)
    → Inv st
    → lookup fresh st.by_request ≡ none
    → Inv (request_live st origin fresh tx).0
unfolding request_live
request_live-Inv st origin fresh tx h unused = elim (Option-cases (lookup origin st.by_origin)) [
  | inl e ↦ rw (e, request_live) (request_new-Inv st origin fresh tx h unused e)
  | inr (id, e) ↦ elim (Option-cases (lookup id st.by_request)) [
    | inl gone ↦ absurd (ground (arith, h.linked origin id e))
    | inr (req, known) ↦ rw (e, request_live) (rw (known) (join-Inv st id req tx h known))
  ]
]

-- The method `request` keeps the invariant, whatever it answers, provided that the identifier it may
-- give to a new request is not the identifier of a pending one: the maps stay inverse to one another,
-- each pending request has exactly one place among the active slot and the queue, and no cap is passed.
pub request-Inv :
    (st : PendingState) (origin : Text) (now : ℕ) (fresh : Text) (tx : ℕ)
    → Inv st
    → lookup fresh st.by_request ≡ none
    → Inv (request st origin now fresh tx).0
unfolding request
request-Inv st origin now fresh tx h unused =
    let (st', cooling) = is_cooling_down st origin now in
    let h' = is_cooling_down-Inv st origin now h in
    elim (Bool-cases cooling) [
      | inl e ↦ rw (e, request) h'
      | inr e ↦
          rw (e, request)
            (request_live-Inv st' origin fresh tx h' (unfold is_cooling_down in unused))
    ]
