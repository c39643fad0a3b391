-- ===== src/Authorization/Manager/Peek.antt =====
-- What a popup shows of its request: `peek` of packages/accelerator/core/src/authorization.rs.
use aztec_accelerator.Prelude.{
  ℕ, ◌≡◌, inl, inr, refl, Bool, false, none, some, [], ◌∷◌, ◌++◌, nat_eq, list_eq, arith,
  Option-cases, Bool-cases,
}
use aztec_accelerator.Prelude.Maps.{lookup, lookup-insert}
use aztec_accelerator.Prelude.Texts.{Text, text_eq_iff}
use aztec_accelerator.Authorization.Manager.{
  PendingRequest, PendingState, accepted, insert_request, is_active, is_cooling_down, request,
  request_new, request_live, join, peek,
}
use aztec_accelerator.Authorization.Manager.Invariant.{Inv}
use aztec_accelerator.Authorization.Manager.Invariant.Cooldowns.{is_cooling_down-Inv}

-- An identifier that no pending request has does not own the active slot.
fresh-inactive :
    (st : PendingState) (fresh : Text)
    → Inv st
    → lookup fresh st.by_request ≡ none
    → is_active st fresh ≡ false
unfolding is_active
fresh-inactive st fresh h unused = elim (Option-cases st.active) [
  | inl e ↦ rw e refl
  | inr (a, e) ↦ ground (arith, h.slotted fresh, e, text_eq_iff a fresh)
]

peek-request_new :
    (st : PendingState) (origin fresh id : Text) (tx rx : ℕ) (first act : Bool)
    → Inv st
    → lookup fresh st.by_request ≡ none
    → (request_new st origin fresh tx).1 ≡ accepted rx id first act
    → peek (request_new st origin fresh tx).0 id ≡ some (origin, act)
unfolding request_new insert_request peek is_active
peek-request_new st origin fresh id tx rx first act h unused e =
    let req : PendingRequest = record { origin = origin; senders = tx ∷ [] } in
    ground (
      arith,
      lookup-insert fresh id req st.by_request,
      text_eq_iff fresh id,
      text_eq_iff fresh fresh,
      fresh-inactive st fresh h unused,
    )

peek-join :
    (st : PendingState) (origin joined id : Text) (req : PendingRequest) (tx rx : ℕ)
    (first act : Bool)
    → req.origin ≡ origin
    → (join st joined req tx).1 ≡ accepted rx id first act
    → peek (join st joined req tx).0 id ≡ some (origin, act)
unfolding join peek is_active
peek-join st origin joined id req tx rx first act own e =
    let req' : PendingRequest = record req { senders = req.senders ++ tx ∷ [] } in
    ground (arith, lookup-insert joined id req' st.by_request, text_eq_iff joined id)

peek-request_live :
    (st : PendingState) (origin fresh id : Text) (tx rx : ℕ) (first act : Bool)
    → Inv st
    → lookup fresh st.by_request ≡ none
    → (request_live st origin fresh tx).1 ≡ accepted rx id first act
    → peek (request_live st origin fresh tx).0 id ≡ some (origin, act)
unfolding request_live
peek-request_live st origin fresh id tx rx first act h unused e =
    elim (Option-cases (lookup origin st.by_origin)) [
      | inl none_yet ↦
          rw (none_yet, request_live)
            (peek-request_new st origin fresh id tx rx first act h unused
              (rw (none_yet, request_live) at e))
      | inr (joined, linked) ↦ elim (Option-cases (lookup joined st.by_request)) [
        | inl gone ↦ absurd (ground (arith, h.linked origin joined linked))
        | inr (req, known) ↦
            rw (linked, request_live)
              (rw known (
                peek-join st origin joined id req tx rx first act
                  (ground (arith, h.linked origin joined linked))
                  (rw known at (rw (linked, request_live) at e))))
      ]
    ]

-- The popup of an accepted request shows the origin that the server will approve, the one that asked,
-- and it is actionable exactly if the answer to the request said so.
pub peek-request :
    (st : PendingState) (origin fresh id : Text) (now tx rx : ℕ) (first act : Bool)
    → Inv st
    → lookup fresh st.by_request ≡ none
    → (request st origin now fresh tx).1 ≡ accepted rx id first act
    → peek (request st origin now fresh tx).0 id ≡ some (origin, act)
unfolding request
peek-request st origin fresh id now tx rx first act h unused e =
    let (st', cooling) = is_cooling_down st origin now in
    let h' = is_cooling_down-Inv st origin now h in
    elim (Bool-cases cooling) [
      | inl hot ↦ absurd (ground (arith, rw (hot, request) at e))
      | inr cool ↦
          rw (cool, request)
            (peek-request_live st' origin fresh id tx rx first act h'
              (unfold is_cooling_down in unused) (rw (cool, request) at e))
    ]
