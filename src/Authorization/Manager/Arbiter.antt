-- ===== src/Authorization/Manager/Arbiter.antt =====
-- The single-active-popup arbiter of packages/accelerator/core/src/authorization.rs: who may resolve
-- a request, who is told, and in which order the popups become actionable.
use aztec_accelerator.Prelude.{
  ℕ, ◌≡◌, ◌≢◌, ◌⊎◌, inl, inr, refl, true, false, Option, none, some, List, [], ◌∷◌, map, nat_eq,
  list_eq, if◌then◌else◌, arith, Option-cases, ap, ◌∙◌,
}
use aztec_accelerator.Prelude.Tests.{if-true}
use aztec_accelerator.Prelude.Lists.{count}
use aztec_accelerator.Prelude.Maps.{lookup, remove, lookup-remove}
use aztec_accelerator.Prelude.Texts.{Text, text_eq_iff}
use aztec_accelerator.Authorization.Manager.{
  AuthDecision, allow, deny, PendingRequest, PendingState, resolved, not_active, is_id, is_active,
  pop_front, remove_known, remove_found, remove_request, record_cooldown, resolve, resolve_active,
  resolve_removed, resolve_active_removed, settle, deliver,
}
use aztec_accelerator.Authorization.Manager.Invariant.{Inv, slots}

-- The first queued request.
abbrev pub head : List Text → Option Text
head [] = none
head (id ∷ ids) = some id

pub by_request-settle :
    (decision : AuthDecision) (st : PendingState) (origin : Text) (now : ℕ)
    → let st' = settle decision st origin now in
      (st'.by_request ≡ st.by_request)
      × (st'.by_origin ≡ st.by_origin)
      × (st'.active ≡ st.active)
      × (st'.queue ≡ st.queue)
unfolding settle record_cooldown
by_request-settle allow st origin now = (refl, refl, refl, refl)
by_request-settle deny st origin now = (refl, refl, refl, refl)

deliver-map :
    (decision : AuthDecision) (txs : List ℕ) → deliver decision txs ≡ map (λ tx. (tx, decision)) txs
unfolding deliver
deliver-map decision [] = refl
deliver-map decision (tx ∷ txs) = ap (λ l. (tx, decision) ∷ l) (deliver-map decision txs)

-- What the resolution of the request `req` under `id` does to the state and tells the channels.
pub record IsResolved (st st' : PendingState) (id : Text) (req : PendingRequest)
    (decision : AuthDecision) (promoted : Option Text) (sent : List (ℕ × AuthDecision))
    : Type 0 where
  pub told : sent ≡ map (λ tx. (tx, decision)) req.senders
  pub gone : lookup id st'.by_request ≡ none
  pub free : lookup req.origin st'.by_origin ≡ none
  pub promoted_head : promoted ≡ (if is_active st id then head st.queue else none)
  pub next_active : st'.active ≡ (if is_active st id then head st.queue else st.active)

pop_front-head : (queue : List Text) → (pop_front queue).0 ≡ head queue
unfolding pop_front
pop_front-head [] = refl
pop_front-head (id ∷ ids) = refl

lookup-remove_self {ℓ} :
    {V : Type ℓ} (k : Text) (m : List (Text × V)) → lookup k (remove k m) ≡ none
lookup-remove_self k m = ground (arith, lookup-remove k k m, text_eq_iff k k)

pub remove_known-removed :
    (st : PendingState) (id : Text) (req : PendingRequest)
    → (remove_known st id req).1 ≡ some (req, (if is_active st id then head st.queue else none))
unfolding remove_known is_active
remove_known-removed st id req = ground (arith, pop_front-head st.queue)

remove_known-left :
    (st : PendingState) (id : Text) (req : PendingRequest)
    → let st' = (remove_known st id req).0 in
      (st'.by_request ≡ remove id st.by_request)
      × (st'.by_origin ≡ remove req.origin st.by_origin)
      × (st'.active ≡ (if is_active st id then head st.queue else st.active))
unfolding remove_known is_active
remove_known-left st id req = (ground arith, ground arith, ground (arith, pop_front-head st.queue))

pub resolve_removed-some :
    (r : PendingState × Option (PendingRequest × Option Text)) (req : PendingRequest)
    (promoted : Option Text) (decision : AuthDecision) (now : ℕ)
    → r.1 ≡ some (req, promoted)
    → (resolve_removed r decision now
        ≡ (settle decision r.0 req.origin now, promoted, deliver decision req.senders))
      × (resolve_active_removed r decision now
          ≡ (settle decision r.0 req.origin now, resolved promoted, deliver decision req.senders))
unfolding resolve_removed resolve_active_removed
resolve_removed-some (st, none) req promoted decision now e = absurd (ground arith)
resolve_removed-some (st, some (r, p)) req promoted decision now e = (ground arith, ground arith)

settled-IsResolved :
    (st : PendingState) (id : Text) (req : PendingRequest) (decision : AuthDecision) (now : ℕ)
    → IsResolved st
        (settle decision (remove_known st id req).0 req.origin now)
        id
        req
        decision
        (if is_active st id then head st.queue else none)
        (deliver decision req.senders)
settled-IsResolved st id req decision now =
    let (requests, origins, active, _) =
      by_request-settle decision (remove_known st id req).0 req.origin now in
    let (left_requests, left_origins, next) = remove_known-left st id req in
    record {
      told = deliver-map decision req.senders;
      gone = rw (requests, left_requests) (lookup-remove_self id st.by_request);
      free = rw (origins, left_origins) (lookup-remove_self req.origin st.by_origin);
      promoted_head = refl;
      next_active = active ∙ next;
    }

resolve_known :
    (st : PendingState) (id : Text) (req : PendingRequest) (decision : AuthDecision) (now : ℕ)
    → let (st', promoted, sent) = resolve_removed (remove_known st id req) decision now in
      IsResolved st st' id req decision promoted sent
resolve_known st id req decision now =
    rw
      ((resolve_removed-some (remove_known st id req) req _ decision now
        (remove_known-removed st id req)).0)
      (settled-IsResolved st id req decision now)

-- A request that is pending: resolving it tells exactly its channels, each once and in their order,
-- removes it from both maps, and promotes the head of the queue if it owned the active slot. An
-- unknown identifier changes nothing and tells nobody.
pub resolve_exact :
    (st : PendingState) (id : Text) (decision : AuthDecision) (now : ℕ)
    → ((lookup id st.by_request ≡ none) × (resolve st id decision now ≡ (st, none, [])))
      ⊎ ((req : PendingRequest) × (lookup id st.by_request ≡ some req)
          × (let (st', promoted, sent) = resolve st id decision now in
              IsResolved st st' id req decision promoted sent))
unfolding resolve remove_request
resolve_exact st id decision now = elim (Option-cases (lookup id st.by_request)) [
  | inl e ↦ inl (e, rw (e, remove_found) refl)
  | inr (req, e) ↦ inr (req, e, rw (e, remove_found) (resolve_known st id req decision now))
]

active_counts :
    (active : Option Text) (queue : List Text) (id : Text)
    → is_id active id ≡ true
    → count id (slots active queue) ≢ 0
active_counts none queue id e = cc
active_counts (some a) queue id e = ground arith

-- The active request is pending.
pub active_pending :
    (st : PendingState) (id : Text)
    → Inv st
    → is_active st id ≡ true
    → lookup id st.by_request ≢ none
unfolding is_active
active_pending st id h e unknown =
    ground (arith, active_counts st.active st.queue id e, h.slotted id)

resolve_active-resolve :
    (st : PendingState) (id : Text) (decision : AuthDecision) (now : ℕ) (req : PendingRequest)
    → lookup id st.by_request ≡ some req
    → is_active st id ≡ true
    → resolve_active st id decision now ≡ (
      settle decision (remove_known st id req).0 req.origin now,
      resolved (head st.queue),
      deliver decision req.senders,
    )
      × (resolve st id decision now ≡ (
        settle decision (remove_known st id req).0 req.origin now,
        head st.queue,
        deliver decision req.senders,
      ))
unfolding resolve resolve_active remove_request
resolve_active-resolve st id decision now req known e =
    let (system, user) =
      resolve_removed-some (remove_known st id req) req _ decision now
        (remove_known-removed st id req) in
    rw e (rw (known, remove_found) (rw (user, system) (rw e (refl, refl))))

-- The requests behind the first queued one.
abbrev pub tail : List Text → List Text
tail [] = []
tail (id ∷ ids) = ids

-- The active request `req` is taken out of the state, and the next one takes its place.
pub record IsPromoted (st st' : PendingState) (id : Text) (req : PendingRequest)
    (decision : AuthDecision) (sent : List (ℕ × AuthDecision)) : Type 0 where
  pub told : sent ≡ map (λ tx. (tx, decision)) req.senders
  pub gone : lookup id st'.by_request ≡ none
  pub free : lookup req.origin st'.by_origin ≡ none
  pub active : st'.active ≡ head st.queue
  pub queue : st'.queue ≡ tail st.queue
  pub others :
      (other : Text) → other ≢ id → lookup other st'.by_request ≡ lookup other st.by_request

lookup-remove_other {ℓ} :
    {V : Type ℓ} (k j : Text) (m : List (Text × V)) → j ≢ k → lookup j (remove k m) ≡ lookup j m
lookup-remove_other k j m n = ground (arith, lookup-remove k j m, text_eq_iff k j)

pop_front-tail : (queue : List Text) → (pop_front queue).1 ≡ tail queue
unfolding pop_front
pop_front-tail [] = refl
pop_front-tail (id ∷ ids) = refl

remove_known-queue :
    (st : PendingState) (id : Text) (req : PendingRequest)
    → is_active st id ≡ true
    → (remove_known st id req).0.queue ≡ tail st.queue
unfolding remove_known is_active
remove_known-queue st id req e = ground (arith, pop_front-tail st.queue)

settled-IsPromoted :
    (st : PendingState) (id : Text) (req : PendingRequest) (decision : AuthDecision) (now : ℕ)
    → is_active st id ≡ true
    → IsPromoted st
        (settle decision (remove_known st id req).0 req.origin now)
        id
        req
        decision
        (deliver decision req.senders)
settled-IsPromoted st id req decision now e =
    let r = settled-IsResolved st id req decision now in
    let (requests, _, _, queued) =
      by_request-settle decision (remove_known st id req).0 req.origin now in
    let (left, _, _) = remove_known-left st id req in
    record {
      told = r.told;
      gone = r.gone;
      free = r.free;
      active = r.next_active ∙ if-true (is_active st id) (head st.queue) st.active e;
      queue = queued ∙ remove_known-queue st id req e;
      others = λ other n.
          ap (lookup other) (requests ∙ left) ∙ lookup-remove_other id other st.by_request n;
    }

-- A user's decision counts exactly for the request in the active slot: for any other identifier the
-- answer is `NotActive`, nothing changes and nobody is told. For the active one the state and what
-- the channels get are those of `resolve`; the answer names the head of the queue, which now is the
-- active request (none if the queue was empty), and the rest of the queue stays queued; the request
-- is gone from both maps, and exactly its channels are told the decision.
pub resolve_active_exact :
    (st : PendingState) (id : Text) (decision : AuthDecision) (now : ℕ)
    → Inv st
    → (is_active st id ≡ false → resolve_active st id decision now ≡ (st, not_active, []))
      × (is_active st id ≡ true
          → resolve_active st id decision now ≡ (
            (resolve st id decision now).0,
            resolved (head st.queue),
            (resolve st id decision now).2,
          )
            × ((req : PendingRequest) × (lookup id st.by_request ≡ some req)
                × (let (st', answer, sent) = resolve_active st id decision now in
                    IsPromoted st st' id req decision sent)))
unfolding resolve_active
resolve_active_exact st id decision now h = (
  λ e. rw e refl,
  λ e. elim (Option-cases (lookup id st.by_request)) [
    | inl unknown ↦ absurd (active_pending st id h e unknown)
    | inr (req, known) ↦
        let (user, system) = resolve_active-resolve st id decision now req known e in
        rw (user, system) (refl, (req, known, settled-IsPromoted st id req decision now e))
  ],
)
