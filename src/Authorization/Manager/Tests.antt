-- ===== src/Authorization/Manager/Tests.antt =====
-- Runs of packages/accelerator/core/src/authorization.rs: two sites that ask for consent, one after
-- the other, and URLs as the crate `url` gives their parts.
use aztec_accelerator.Prelude.{
  ◌+◌, ◌<◌, ◌≡◌, ◌↔◌, refl, true, false, not, Option, none, some, [], ◌∷◌, ◌==◌, nat_eq, list_eq,
  if◌then◌else◌,
}
use aztec_accelerator.Prelude.Equality.{list_beq}
use aztec_accelerator.Prelude.Lists.{keep}
use aztec_accelerator.Prelude.Maps.{lookup, insert, remove}
use aztec_accelerator.Prelude.Texts.{Text, codes, to_lower}
use aztec_accelerator.Authorization.Manager.{
  allow, deny, PendingRequest, PendingState, initial, is_active, request, resolve, resolve_active,
  not_active, resolved, refused, cooldown, deny_cooldown, insert_request, is_cooling_down,
  request_live, request_new, remove_request, remove_found,
}
use aztec_accelerator.Authorization.Manager.Invariant.{Inv, initial-Inv}
use aztec_accelerator.Authorization.Manager.Invariant.Requests.{request-Inv}
use aztec_accelerator.Authorization.Manager.Invariant.Resolution.{resolve-Inv}
use aztec_accelerator.Authorization.Manager.Arbiter.{head, IsPromoted, resolve_active_exact}
use aztec_accelerator.Authorization.Manager.Cooldown.{denied_origin_cools_down}
use aztec_accelerator.Authorization.Manager.Fifo.{popups, with_popup, popups_fifo}
use aztec_accelerator.Authorization.Origin.{Url, canonicalize_origin}
use aztec_accelerator.Authorization.Origin.Canonical.{
  canonicalize_origin_exact, IsBareOrigin, IsAllowed, IsOriginText,
}

abbrev shop : Text
shop = codes "https://shop.example"

abbrev game : Text
game = codes "https://game.example"

abbrev r1 : Text
r1 = codes "r1"

abbrev r2 : Text
r2 = codes "r2"

-- One site asks, then another: the first has the active popup and the second is queued.
abbrev asked : PendingState
asked = (request initial shop 1000 r1 1).0

abbrev both : PendingState
both = (request asked game 2000 r2 2).0

asked-Inv : Inv asked
unfolding lookup
asked-Inv = request-Inv initial shop 1000 r1 1 initial-Inv refl

request-Inv_example : Inv both
unfolding request request_live request_new is_cooling_down insert_request resolve remove_request
    remove_found lookup insert remove list_beq
request-Inv_example = request-Inv asked game 2000 r2 2 asked-Inv refl

both-Inv : Inv both
unfolding request request_live request_new is_cooling_down insert_request resolve remove_request
    remove_found lookup insert remove list_beq
both-Inv = request-Inv asked game 2000 r2 2 asked-Inv refl

resolve-Inv_example : Inv (resolve both r1 deny 3000).0 × Inv (resolve_active both r1 deny 3000).0
resolve-Inv_example = resolve-Inv both r1 deny 3000 both-Inv

resolve_active_exact_example :
    (is_active both r1 ≡ false → resolve_active both r1 deny 3000 ≡ (both, not_active, []))
    × (is_active both r1 ≡ true
        → resolve_active both r1 deny 3000 ≡ (
          (resolve both r1 deny 3000).0,
          resolved (head both.queue),
          (resolve both r1 deny 3000).2,
        )
          × ((req : PendingRequest) × (lookup r1 both.by_request ≡ some req)
              × (let (st', answer, sent) = resolve_active both r1 deny 3000 in
                  IsPromoted both st' r1 req deny sent)))
resolve_active_exact_example = resolve_active_exact both r1 deny 3000 both-Inv

popups_fifo_example :
    (let (st', answer) = request both shop 4000 (codes "r3") 3 in
      popups st' ≡ with_popup answer (popups both))
    × (popups (resolve both r1 allow 4000).0 ≡ keep (λ q. not (q == r1)) (popups both))
popups_fifo_example = popups_fifo both shop (codes "r3") r1 4000 3 allow both-Inv

denied_origin_cools_down_example :
    ((request (resolve both r1 deny 3000).0 shop 5000 (codes "r3") 3).1 ≡ refused cooldown)
    ↔ (5000 < 3000 + deny_cooldown)
unfolding request request_live request_new is_cooling_down insert_request resolve remove_request
    remove_found lookup insert remove list_beq
denied_origin_cools_down_example =
    denied_origin_cools_down both r1 (codes "r3") (record { origin = shop; senders = 1 ∷ [] }) 3000
      5000 3 refl

-- "http://localhost:3000/" in capitals
abbrev local_url : Url
local_url = record {
  scheme = codes "http";
  username = [];
  password = none;
  host_str = some (codes "LocalHost");
  port = some 3000;
  path = codes "/";
  query = none;
  fragment = none;
}

-- A parser that knows the one URL.
abbrev parse_local : Text → Option Url
parse_local input = if input == codes "http://LocalHost:3000/" then some local_url else none

canonicalize_origin_exact_example :
    (canonicalize_origin parse_local (codes "http://LocalHost:3000/")
      ≡ some (codes "http://localhost:3000"))
    ↔ ((url : Url) × (host : Text) × (parse_local (codes "http://LocalHost:3000/") ≡ some url)
        × IsBareOrigin url host
        × IsAllowed url (to_lower host)
        × IsOriginText url (to_lower host) (codes "http://localhost:3000"))
canonicalize_origin_exact_example =
    canonicalize_origin_exact parse_local (codes "http://LocalHost:3000/")
      (codes "http://localhost:3000")
