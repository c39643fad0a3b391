-- ===== src/Authorization/Manager.antt =====
-- packages/accelerator/core/src/authorization.rs: `PendingState` and `AuthorizationManager`. The
-- mutex makes each method one step on the state. A `oneshot` channel is a number; what is sent on
-- it is in a method's result. The clock, the fresh UUID and the channel are arguments.
pub mod Invariant
pub mod Arbiter
pub mod Cooldown
pub mod Fifo
pub mod Peek
pub mod Tests
use aztec_accelerator.Prelude.{
  ℕ, ◌+◌, ◌*◌, Bool, true, false, not, ◌&&◌, Option, none, some, is_some, List, [], ◌∷◌, ◌++◌, ltb,
  leb, length, ◌==◌, nat_eq, list_eq, if◌then◌else◌,
}
use aztec_accelerator.Prelude.Lists.{keep}
use aztec_accelerator.Prelude.Maps.{Map, lookup, insert, remove}
use aztec_accelerator.Prelude.Texts.{Text}

pub data AuthDecision : Type 0 where
  allow deny : AuthDecision

pub data ResolveOutcome : Type 0 where
  resolved : Option Text → ResolveOutcome
  not_active : ResolveOutcome

pub data RequestError : Type 0 where
  cooldown too_many : RequestError

abbrev pub max_pending_origins : ℕ
max_pending_origins = 10

-- Milliseconds.
abbrev pub deny_cooldown : ℕ
deny_cooldown = 30 * 1000

abbrev pub max_cooldown_entries : ℕ
max_cooldown_entries = 64

abbrev pub max_piggyback_senders : ℕ
max_piggyback_senders = 16

pub record PendingRequest : Type 0 where
  pub origin : Text
  pub senders : List ℕ

pub record PendingState : Type 0 where
  pub by_origin : Map Text Text
  pub by_request : Map Text PendingRequest
  pub active : Option Text
  pub queue : List Text
  pub cooldowns : Map Text ℕ

abbrev pub initial : PendingState
initial = record { by_origin = []; by_request = []; active = none; queue = []; cooldowns = [] }

-- `self.active.as_deref() == Some(request_id)`
abbrev pub is_id : Option Text → Text → Bool
is_id none id = false
is_id (some a) id = a == id

pub is_active : PendingState → Text → Bool
is_active st id = is_id st.active id

-- PendingState::insert; the flag says whether the new request owns the active slot.
pub insert_request : PendingState → Text → Text → ℕ → PendingState × Bool
insert_request st origin id tx =
    let st' = record st {
      by_origin = insert origin id st.by_origin;
      by_request = insert id (record { origin = origin; senders = tx ∷ [] }) st.by_request;
    } in
    elim st.active [
      | none ↦ (record st' { active = some id }, true)
      | some _ ↦ (record st' { queue = st.queue ++ id ∷ [] }, false)
    ]

-- VecDeque::pop_front
pub pop_front : List Text → Option Text × List Text
pop_front [] = (none, [])
pop_front (id ∷ ids) = (some id, ids)

pub remove_known :
    PendingState → Text → PendingRequest → PendingState × Option (PendingRequest × Option Text)
remove_known st id req =
    let st' = record st {
      by_request = remove id st.by_request;
      by_origin = remove req.origin st.by_origin;
    } in
    let (next, rest) = pop_front st.queue in
    if is_id st.active id
    then (record st' { active = next; queue = rest }, some (req, next))
    else (record st' { queue = keep (λ q. not (q == id)) st.queue }, some (req, none))

remove_found :
    Option PendingRequest
    → PendingState
    → Text
    → PendingState × Option (PendingRequest × Option Text)
remove_found none st id = (st, none)
remove_found (some req) st id = remove_known st id req

-- PendingState::remove
pub remove_request : PendingState → Text → PendingState × Option (PendingRequest × Option Text)
unfolding remove_found remove_known pop_front
remove_request st id = remove_found (lookup id st.by_request) st id

-- `min_by_key` on the expiry: the first of the entries that expire soonest.
soonest : Text × ℕ → Map Text ℕ → Text × ℕ
soonest best [] = best
soonest best (e ∷ m) = soonest (if ltb e.1 best.1 then e else best) m

evict_oldest : Map Text ℕ → Map Text ℕ
unfolding soonest
evict_oldest [] = []
evict_oldest (e ∷ m) = remove (soonest e m).0 (e ∷ m)

-- PendingState::record_cooldown
pub record_cooldown : PendingState → Text → ℕ → PendingState
unfolding evict_oldest
record_cooldown st origin expiry =
    let full = leb max_cooldown_entries (length st.cooldowns) in
    let known = is_some (lookup origin st.cooldowns) in
    record st {
      cooldowns =
          insert origin expiry
            (if full && not known then evict_oldest st.cooldowns else st.cooldowns);
    }

-- PendingState::is_cooling_down: it drops what has expired as a side effect.
pub is_cooling_down : PendingState → Text → ℕ → PendingState × Bool
is_cooling_down st origin now =
    let left = keep (λ e. ltb now e.1) st.cooldowns in
    (record st { cooldowns = left }, is_some (lookup origin left))

-- `Result<(Receiver, request_id, is_first, is_active), RequestError>`
pub data Requested : Type 0 where
  accepted : ℕ → Text → Bool → Bool → Requested
  refused : RequestError → Requested

-- A new request, once no pending one of the origin took the channel.
request_new : PendingState → Text → Text → ℕ → PendingState × Requested
unfolding insert_request
request_new st origin fresh tx =
    let (st', now_active) = insert_request st origin fresh tx in
    if leb max_pending_origins (length st.by_request)
    then (st, refused too_many)
    else (st', accepted tx fresh true now_active)

join : PendingState → Text → PendingRequest → ℕ → PendingState × Requested
unfolding is_active
join st id req tx =
    if leb max_piggyback_senders (length req.senders) then (st, refused too_many) else (
      record st {
        by_request = insert id (record req { senders = req.senders ++ tx ∷ [] }) st.by_request;
      },
      accepted tx id false (is_active st id),
    )

request_live : PendingState → Text → Text → ℕ → PendingState × Requested
unfolding request_new join
request_live st origin fresh tx = elim (lookup origin st.by_origin) [
  | none ↦ request_new st origin fresh tx
  | some id ↦ elim (lookup id st.by_request) [
    | none ↦ request_new st origin fresh tx
    | some req ↦ join st id req tx
  ]
]

-- AuthorizationManager::request
pub request : PendingState → Text → ℕ → Text → ℕ → PendingState × Requested
unfolding is_cooling_down request_live
request st origin now fresh tx =
    let (st', cooling) = is_cooling_down st origin now in
    if cooling then (st', refused cooldown) else request_live st' origin fresh tx

-- The decision that each channel gets.
pub deliver : AuthDecision → List ℕ → List (ℕ × AuthDecision)
deliver decision [] = []
deliver decision (tx ∷ txs) = (tx, decision) ∷ deliver decision txs

pub settle : AuthDecision → PendingState → Text → ℕ → PendingState
unfolding record_cooldown
settle allow st origin now = st
settle deny st origin now = record_cooldown st origin (now + deny_cooldown)

pub resolve_removed :
    PendingState × Option (PendingRequest × Option Text)
    → AuthDecision
    → ℕ
    → PendingState × Option Text × List (ℕ × AuthDecision)
resolve_removed (st, none) decision now = (st, none, [])
resolve_removed (st, some (req, promoted)) decision now =
    (settle decision st req.origin now, promoted, deliver decision req.senders)

-- AuthorizationManager::resolve
pub resolve :
    PendingState → Text → AuthDecision → ℕ → PendingState × Option Text × List (ℕ × AuthDecision)
unfolding remove_request resolve_removed settle deliver
resolve st id decision now = resolve_removed (remove_request st id) decision now

pub resolve_active_removed :
    PendingState × Option (PendingRequest × Option Text)
    → AuthDecision
    → ℕ
    → PendingState × ResolveOutcome × List (ℕ × AuthDecision)
resolve_active_removed (st, none) decision now = (st, not_active, [])
resolve_active_removed (st, some (req, promoted)) decision now =
    (settle decision st req.origin now, resolved promoted, deliver decision req.senders)

-- AuthorizationManager::resolve_active
pub resolve_active :
    PendingState → Text → AuthDecision → ℕ → PendingState × ResolveOutcome × List (ℕ × AuthDecision)
unfolding is_active remove_request resolve_active_removed settle deliver
resolve_active st id decision now =
    if is_active st id
    then resolve_active_removed (remove_request st id) decision now
    else (st, not_active, [])

-- AuthorizationManager::peek
unfoldable pub peek : PendingState → Text → Option (Text × Bool)
unfolding is_active
peek st id = elim (lookup id st.by_request) [
  | none ↦ none
  | some req ↦ some (req.origin, is_active st id)
]
