-- ===== src/Authorization/Manager/Invariant.antt =====
-- What holds of the pending state of packages/accelerator/core/src/authorization.rs between two
-- calls: the two maps are inverse to one another, the active slot and the queue hold each pending
-- request once, and the caps hold.
pub mod Removal
pub mod Cooldowns
pub mod Requests
pub mod Resolution
use aztec_accelerator.Prelude.{
  ℕ, ◌+◌, ◌≤◌, ◌≡◌, refl, not, Option, none, some, is_some, List, [], ◌∷◌, ◌++◌, length, ◌==◌,
  nat_eq, list_eq, if◌then◌else◌, arith,
}
use aztec_accelerator.Prelude.Lists.{keep, count}
use aztec_accelerator.Prelude.Maps.{Map, lookup}
use aztec_accelerator.Prelude.Texts.{Text, text_eq_iff}
use aztec_accelerator.Authorization.Manager.{
  PendingRequest, PendingState, initial, max_pending_origins, max_cooldown_entries,
  max_piggyback_senders,
}

abbrev pub origin_of : Option PendingRequest → Option Text
origin_of none = none
origin_of (some req) = some req.origin

abbrev pub sender_count : Option PendingRequest → ℕ
sender_count none = 0
sender_count (some req) = length req.senders

-- The requests that have a popup: the active one and the queued ones.
abbrev pub slots : Option Text → List Text → List Text
slots none queue = queue
slots (some id) queue = id ∷ queue

pub record Inv (st : PendingState) : Type 0 where
  pub linked :
      (o id : Text) → lookup o st.by_origin ≡ some id → origin_of (lookup id st.by_request) ≡ some o
  pub back :
      (o id : Text) → origin_of (lookup id st.by_request) ≡ some o → lookup o st.by_origin ≡ some id
  pub slotted :
      (id : Text)
      → count id (slots st.active st.queue) ≡ (if is_some (lookup id st.by_request) then 1 else 0)
  pub idle : st.active ≡ none → st.queue ≡ []
  pub piggybacks : (id : Text) → sender_count (lookup id st.by_request) ≤ max_piggyback_senders
  pub origins : length st.by_request ≤ max_pending_origins
  pub cooled : length st.cooldowns ≤ max_cooldown_entries

pub initial-Inv : Inv initial
unfolding lookup
initial-Inv = record {
  linked = λ o id h. cc;
  back = λ o id h. cc;
  slotted = λ id. refl;
  idle = λ h. refl;
  piggybacks = λ id. omega arith;
  origins = omega arith;
  cooled = omega arith;
}

-- The same pending requests, with other cooldowns.
pub cooldowns-Inv :
    {st : PendingState} (m : Map Text ℕ)
    → Inv st
    → length m ≤ max_cooldown_entries
    → Inv (record st { cooldowns = m })
cooldowns-Inv m h k = record {
  linked = h.linked;
  back = h.back;
  slotted = h.slotted;
  idle = h.idle;
  piggybacks = h.piggybacks;
  origins = h.origins;
  cooled = k;
}

pub count-append : (a : Text) (xs ys : List Text) → count a (xs ++ ys) ≡ count a xs + count a ys
count-append a [] ys = omega arith
count-append a (x ∷ xs) ys = ground (arith, count-append a xs ys)

pub count-keep_others :
    (a b : Text) (xs : List Text)
    → count b (keep (λ x. not (x == a)) xs) ≡ (if a == b then 0 else count b xs)
count-keep_others a b [] = ground arith
count-keep_others a b (x ∷ xs) =
    ground (arith, count-keep_others a b xs, text_eq_iff x a, text_eq_iff x b, text_eq_iff a b)
