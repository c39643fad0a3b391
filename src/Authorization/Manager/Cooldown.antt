-- ===== src/Authorization/Manager/Cooldown.antt =====
-- The post-deny cooldown of packages/accelerator/core/src/authorization.rs.
use aztec_accelerator.Prelude.{
  ℕ, ◌+◌, ◌<◌, ◌≡◌, ◌≢◌, ◌↔◌, refl, Bool, true, none, some, is_some, [], ◌∷◌, ltb, nat_eq, list_eq,
  arith,
}
use aztec_accelerator.Prelude.Lists.{keep}
use aztec_accelerator.Prelude.Maps.{Map, lookup, insert, remove}
use aztec_accelerator.Prelude.Texts.{Text, text_eq_iff}
use aztec_accelerator.Authorization.Manager.{
  deny, PendingRequest, PendingState, remove_known, remove_found, remove_request, record_cooldown,
  resolve, settle, deny_cooldown, refused, cooldown, request, request_new, request_live, join,
  is_cooling_down,
}
use aztec_accelerator.Authorization.Manager.Arbiter.{resolve_removed-some, remove_known-removed}

lookup-keep-remove :
    (p : Text × ℕ → Bool) (k : Text) (m : Map Text ℕ) → lookup k (keep p (remove k m)) ≡ none
unfolding lookup remove
lookup-keep-remove p k [] = refl
lookup-keep-remove p k ((j, v) ∷ m) = ground (arith, lookup-keep-remove p k m, text_eq_iff j k)

cooling-insert :
    (origin : Text) (expiry now : ℕ) (m : Map Text ℕ)
    → is_some (lookup origin (keep (λ (e : Text × ℕ). ltb now e.1) (insert origin expiry m)))
      ≡ ltb now expiry
unfolding insert lookup
cooling-insert origin expiry now m =
    ground (
      arith,
      text_eq_iff origin origin,
      lookup-keep-remove (λ (e : Text × ℕ). ltb now e.1) origin m,
    )

-- After a cooldown is recorded its origin cools down exactly until the expiry.
record_cooldown-cooling :
    (st : PendingState) (origin : Text) (expiry now : ℕ)
    → (is_cooling_down (record_cooldown st origin expiry) origin now).1 ≡ ltb now expiry
unfolding is_cooling_down record_cooldown
record_cooldown-cooling st origin expiry now = cooling-insert origin expiry now _

request_live-not_cooldown :
    (st : PendingState) (origin fresh : Text) (tx : ℕ)
    → (request_live st origin fresh tx).1 ≢ refused cooldown
unfolding request_live request_new join
request_live-not_cooldown st origin fresh tx = ground arith

request-cooldown :
    (st : PendingState) (origin fresh : Text) (now tx : ℕ)
    → ((request st origin now fresh tx).1 ≡ refused cooldown)
      ↔ ((is_cooling_down st origin now).1 ≡ true)
unfolding request
request-cooldown st origin fresh now tx =
    let other = request_live-not_cooldown (is_cooling_down st origin now).0 origin fresh tx in
    (λ h. ground (arith, other), λ h. ground arith)

resolve-deny :
    (st : PendingState) (id : Text) (req : PendingRequest) (now : ℕ)
    → lookup id st.by_request ≡ some req
    → (resolve st id deny now).0
      ≡ record_cooldown (remove_known st id req).0 req.origin (now + deny_cooldown)
unfolding resolve remove_request settle
resolve-deny st id req now known =
    let (system, _) =
      resolve_removed-some (remove_known st id req) req _ deny now
        (remove_known-removed st id req) in
    rw (known, remove_found) (rw system refl)

-- After a request is denied, a new request of its origin is refused for the cooldown, without a
-- popup, exactly while less than the cooldown has passed since the denial.
pub denied_origin_cools_down :
    (st : PendingState) (id fresh : Text) (req : PendingRequest) (now later tx : ℕ)
    → lookup id st.by_request ≡ some req
    → ((request (resolve st id deny now).0 req.origin later fresh tx).1 ≡ refused cooldown)
      ↔ (later < now + deny_cooldown)
denied_origin_cools_down st id fresh req now later tx known =
    let st' = (resolve st id deny now).0 in
    let cooling : (is_cooling_down st' req.origin later).1 ≡ ltb later (now + deny_cooldown) =
      rw (resolve-deny st id req now known) (record_cooldown-cooling _ req.origin _ later) in
    let (there, back) = request-cooldown st' req.origin fresh later tx in
    (λ h. ground (arith, there h, cooling), λ h. back (ground (arith, cooling)))
