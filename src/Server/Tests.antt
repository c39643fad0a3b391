-- ===== src/Server/Tests.antt =====
-- Runs of packages/accelerator/core/src/server/: the loopback gate, the declared body length, consent,
-- and a proof whose version is downloaded first.
use aztec_accelerator.Server.Bind.{
  BindAnswer, bound, addr_in_use, BindOutcome, sleep_time, bind_loop, EndsWith,
  bind_with_retry_ends,
}
use aztec_accelerator.Prelude.{
  ℕ, zero, suc, ◌+◌, ◌*◌, ◌-◌, ◌≤◌, ◌≡◌, ◌↔◌, ◌⊎◌, refl, arith, Bool, true, false, Option, none,
  some, List, [], ◌∷◌, ◌==◌, nat_eq, list_eq, if◌then◌else◌,
}
use aztec_accelerator.Prelude.Texts.{Text, codes}
use aztec_accelerator.Prelude.Equality.{list_beq}
use aztec_accelerator.SemVer.Sample.{sample}
use aztec_accelerator.Authorization.Origin.{Url, canonicalize_origin}
use aztec_accelerator.Authorization.Manager.{allow, initial}
use aztec_accelerator.Versions.Name.{AztecVersion, from_version, version_sort_key}
use aztec_accelerator.Server.Auth.{
  ConfigStore, AuthState, finished, waiting, decided, begin_authorize, finish_authorize,
  approved_by,
}
use aztec_accelerator.Server.Auth.Consent.{Names, begin_authorize_exact, approved_not_asked_again}
use aztec_accelerator.Server.Resolve.{
  Resolution, ok, ResolvesTo, resolve_version, resolve_version_exact,
}
use aztec_accelerator.Server.Prove.{Answers, complete, prove, proof}
use aztec_accelerator.Server.Prove.Guards.{steps, nothing, prove_keeps_guards}
use aztec_accelerator.Server.Prove.Outcome.{Served, prove_succeeds_exact}
use aztec_accelerator.Server.Prove.Status.{Shown, status_sequence}
use aztec_accelerator.Server.Header.{HeaderValues, Shows, IsUnseen}
use aztec_accelerator.Server.Host.{Authority, guard}
use aztec_accelerator.Server.Host.Loopback.{guard_exact, IsTrusted}
use aztec_accelerator.Server.ContentLength.{reject_declared_oversize, max_body_size}
use aztec_accelerator.Server.ContentLength.Exact.{AllDeclare, reject_declared_oversize_exact}

-- A parser that knows one authority.
abbrev parse_authority : Text → Option Authority
parse_authority s =
    if s == codes "localhost:59833"
    then some (record { host = codes "localhost"; port_u16 = some 59833 })
    else none

abbrev named : HeaderValues
named = some (codes "localhost:59833") ∷ []

abbrev unnamed : Option Text
unnamed = none

guard_exact_example : (guard parse_authority 59833 named unnamed ≡ true) ↔ (
    (v : Text) × (Shows named v ⊎ (unnamed ≡ some v))
    × (IsUnseen named ⊎ Shows named v)
    × ((unnamed ≡ none) ⊎ (unnamed ≡ some v))
    × IsTrusted parse_authority v 59833)
guard_exact_example = guard_exact parse_authority 59833 named unnamed

abbrev declared : List (Option Text)
declared = some (codes "12, 12") ∷ []

reject_declared_oversize_exact_example :
    (reject_declared_oversize declared ≡ false)
    ↔ ((declared ≡ []) ⊎ ((n : ℕ) × (n ≤ max_body_size) × AllDeclare n declared))
reject_declared_oversize_exact_example = reject_declared_oversize_exact declared

abbrev site : Text
site = codes "https://shop.example"

abbrev parse_site : Text → Option Url
parse_site s =
    if s == codes "https://shop.example"
    then some (record {
      scheme = codes "https";
      username = [];
      password = none;
      host_str = some (codes "shop.example");
      port = none;
      path = codes "/";
      query = none;
      fragment = none;
    })
    else none

abbrev config : ConfigStore
config = record { approved_origins = []; auto_approve_localhost = false; has_cap = true }

abbrev app : AuthState
app = record { auth_manager = some initial; config = some config; show_auth_popup = true }

abbrev asking : HeaderValues
asking = some site ∷ []

begin_authorize_exact_example :
    (((begin_authorize parse_site app asking 1000 (codes "r1") 1).1 ≡ finished none) ↔ (
      (app.auth_manager ≡ none)
      ⊎ IsUnseen asking
      ⊎ ((origin : Text) × Names parse_site asking origin
          × (approved_by parse_site app.config origin ≡ true))))
    × ((origin id : Text) (rx : ℕ) (shown : Bool)
        → (begin_authorize parse_site app asking 1000 (codes "r1") 1).1 ≡ waiting origin id rx shown
        → Names parse_site asking origin
          × (approved_by parse_site app.config origin ≡ false)
          × (app.show_auth_popup ≡ true))
begin_authorize_exact_example = begin_authorize_exact parse_site app asking 1000 (codes "r1") 1

approved_not_asked_again_example :
    (begin_authorize parse_site
      (finish_authorize parse_site app site (codes "r1") (decided allow) 2000 true).0
      asking
      3000
      (codes "r2")
      2).1
    ≡ finished none
unfolding canonicalize_origin list_beq
approved_not_asked_again_example =
    approved_not_asked_again parse_site app config site site (codes "r1") (codes "r2") [] 2000 3000
      2 refl refl refl

abbrev rc : Text
rc = codes "5.0.0-rc.1"

abbrev rc_version : AztecVersion
rc_version = record { raw = rc; tier = from_version rc; sort_key = version_sort_key rc }

abbrev fetch_rc : Resolution
fetch_rc = ok (record { version = some rc_version; needs_download = true })

resolve_version_exact_example :
    (resolve_version sample (some (codes "5.0.0")) (some rc) (λ v. false) ≡ fetch_rc)
    ↔ ResolvesTo sample (some (codes "5.0.0")) (some rc) (λ v. false) fetch_rc
resolve_version_exact_example =
    resolve_version_exact sample (some (codes "5.0.0")) (some rc) (λ v. false) fetch_rc

-- A proof with a version that is not cached yet.
abbrev first_use : Answers
first_use = record {
  authorized = none;
  waiters_free = true;
  content_length = declared;
  body = complete;
  requested = some rc;
  cached_ok = λ v. false;
  download_ok = true;
  registry = [];
  permit_open = true;
  bb_ok = true;
}

prove_keeps_guards_example :
    steps nothing (prove sample (some (codes "5.0.0")) first_use).0 ≡ some nothing
prove_keeps_guards_example = prove_keeps_guards sample (some (codes "5.0.0")) first_use

status_sequence_example :
    Shown first_use
      (resolve_version sample (some (codes "5.0.0")) (some rc) (λ v. false))
      (prove sample (some (codes "5.0.0")) first_use)
status_sequence_example = status_sequence sample (some (codes "5.0.0")) first_use

prove_succeeds_exact_example : ((prove sample (some (codes "5.0.0")) first_use).1 ≡ proof) ↔ (
    (first_use.authorized ≡ none)
    × (first_use.waiters_free ≡ true)
    × (reject_declared_oversize declared ≡ false)
    × (first_use.body ≡ complete)
    × Served first_use (resolve_version sample (some (codes "5.0.0")) (some rc) (λ v. false)))
prove_succeeds_exact_example = prove_succeeds_exact sample (some (codes "5.0.0")) first_use

-- The port is held for the first two attempts; the clock runs on by the interval.
abbrev held_twice : ℕ → BindAnswer
held_twice zero = addr_in_use
held_twice (suc zero) = addr_in_use
held_twice (suc (suc n)) = bound

clock_sleeps : (j : ℕ) → 100 * j + sleep_time 100 (5000 - 100 * j) ≤ 100 * suc j
clock_sleeps j = ground arith

bind_with_retry_ends_example :
    (o : BindOutcome) × (bind_loop held_twice (λ n. 100 * n) 5000 51 0 ≡ some o)
    × EndsWith held_twice (λ n. 100 * n) 5000 0 o
bind_with_retry_ends_example =
    bind_with_retry_ends held_twice (λ n. 100 * n) 5000 100 50 0 clock_sleeps (omega arith)
