-- ===== src/Server/Prove.antt =====
-- packages/accelerator/core/src/server/prove.rs: the handler `prove`. What its awaits answer is in
-- `Answers`; what it does to the shared state, to the tray status and to the binaries is a trace of
-- events, the drops of its guards included, which run in the reverse order of their `let`s.
pub mod Guards
pub mod Inner
pub mod Outcome
pub mod Status
use aztec_accelerator.Prelude.{
  Bool, true, false, Option, none, some, List, [], ◌∷◌, ◌++◌, if◌then◌else◌,
}
use aztec_accelerator.Prelude.Texts.{Text}
use aztec_accelerator.SemVer.{SemVer}
use aztec_accelerator.Leases.{Registry, Lease, acquire}
use aztec_accelerator.Server.ContentLength.{reject_declared_oversize}
use aztec_accelerator.Server.Error.{
  ProveError, payload_too_large, body_read_timeout, prove_queue_full, service_unavailable,
  version_evicting, download_failed, prove_failed,
}
use aztec_accelerator.Server.Resolve.{Resolution, ok, err, resolve_version}
use aztec_accelerator.Versions.Name.{AztecVersion}

pub data ServerStatus : Type 0 where
  idle proving downloading : ServerStatus

pub data Event : Type 0 where
  -- The permits of `prove_waiters` and `prove_semaphore`.
  entered left permit_taken permit_dropped : Event
  -- `on_status`
  status : ServerStatus → Event
  body_read : Event
  -- `download_bb`, and the detached cleanup that spares the version.
  downloaded cleanup_spawned : Text → Event
  leased lease_dropped : Text → Event
  -- `bb::prove` runs this binary, or the bundled one.
  proved : Option Text → Event

-- `Result<_, ProveError>`
pub data Reply : Type 0 where
  proof : Reply
  failed : ProveError → Reply

-- The outcome of reading the body.
pub data BodyRead : Type 0 where
  complete timed_out too_large : BodyRead

pub record Answers : Type 0 where
  -- `authorize_origin`: `none` is `Ok(())`.
  pub authorized : Option ProveError
  -- Is a permit of `prove_waiters` free?
  pub waiters_free : Bool
  pub content_length : List (Option Text)
  pub body : BodyRead
  pub requested : Option Text
  -- `verify_cached_bb`
  pub cached_ok : Text → Bool
  pub download_ok : Bool
  -- The lease registry when the lease is asked for.
  pub registry : Registry
  -- `false` is a closed semaphore: the service shuts down.
  pub permit_open : Bool
  pub bb_ok : Bool

abbrev pub Run : Type 0
Run = List Event × Reply

pub read_body : BodyRead → Option ProveError
read_body complete = none
read_body timed_out = some body_read_timeout
read_body too_large = some payload_too_large

-- `try_enter`: `none` is the permit.
pub try_enter : Bool → Option ProveError
try_enter free = if free then none else some prove_queue_full

abbrev pub name_of : Option AztecVersion → Option Text
name_of none = none
name_of (some v) = some v.raw

-- The trace of a scope whose guard is taken by the first event and dropped by the second.
pub within : Event → Event → Run → Run
within taken dropped (events, reply) = (taken ∷ (events ++ dropped ∷ []), reply)

-- Behind the lease: the prove permit, held around the proof alone.
pub with_permit : Answers → Option AztecVersion → Run
unfolding within
with_permit w version =
    if w.permit_open
    then within permit_taken permit_dropped
        (proved (name_of version) ∷ [], (if w.bb_ok then proof else failed prove_failed))
    else ([], failed service_unavailable)

pub leased_run : Answers → AztecVersion → Option Lease → Run
unfolding with_permit
leased_run w v none = ([], failed version_evicting)
leased_run w v (some _) = within (leased v.raw) (lease_dropped v.raw) (with_permit w (some v))

-- The version is leased before the wait for the permit; the bundled one needs no lease.
pub with_lease : Answers → Option AztecVersion → Run
unfolding with_permit leased_run
with_lease w none = with_permit w none
with_lease w (some v) = leased_run w v (acquire v.raw w.registry).1

pub on_run : (List Event → List Event) → Run → Run
on_run f (events, reply) = (f events, reply)

-- The download arm.
pub download : Answers → AztecVersion → Run
unfolding with_lease on_run
download w v =
    if w.download_ok
    then on_run
        (λ rest.
          status downloading
          ∷ (downloaded v.raw ∷ (cleanup_spawned v.raw ∷ (status proving ∷ rest))))
        (with_lease w (some v))
    else (status downloading ∷ [], failed (download_failed v.raw))

-- `if let (true, Some(version)) = (needs_download, …)`
pub with_version : Answers → Option AztecVersion → Bool → Run
unfolding download with_lease
with_version w (some v) true = download w v
with_version w (some v) false = with_lease w (some v)
with_version w none _ = with_lease w none

pub with_resolution : Answers → Resolution → Run
unfolding with_version
with_resolution w (err e) = ([], failed e)
with_resolution w (ok rv) = with_version w rv.version rv.needs_download

module _ (sv : SemVer) (bundled_version : Option Text) where
  -- From the first status on: the guard resets it to idle whatever happens.
  pub with_status : Answers → Run
  unfolding within with_resolution
  with_status w =
      within (status proving) (status idle)
        (with_resolution w (resolve_version sv bundled_version w.requested w.cached_ok))

  -- Inside the inflight cap.
  pub with_inflight : Answers → Run
  unfolding with_status read_body on_run
  with_inflight w =
      if reject_declared_oversize w.content_length
      then ([], failed payload_too_large)
      else elim (read_body w.body) [
        | some e ↦ ([], failed e)
        | none ↦ on_run (λ rest. body_read ∷ rest) (with_status w)
      ]

  pub entered_run : Answers → Option ProveError → Run
  unfolding with_inflight within
  entered_run w (some e) = ([], failed e)
  entered_run w none = within entered left (with_inflight w)

  pub authorized_run : Answers → Option ProveError → Run
  unfolding entered_run try_enter
  authorized_run w (some e) = ([], failed e)
  authorized_run w none = entered_run w (try_enter w.waiters_free)

  unfoldable pub prove : Answers → Run
  unfolding authorized_run
  prove w = authorized_run w w.authorized
