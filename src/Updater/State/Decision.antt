-- ===== src/Updater/State/Decision.antt =====
-- Which updates `candidate_allowed` of packages/accelerator/core/src/updater_state.rs accepts, and
-- how `record_pending` binds an instance that races with an install.
use aztec_accelerator.Prelude.{
  ℕ, ◌+◌, ◌≤◌, ◌≡◌, inl, inr, Bool, true, false, none, some, if◌then◌else◌, arith, Bool-cases,
  nat_eq, list_eq,
}
use aztec_accelerator.SemVer.{SemVer, gt, IsPrecedence}
use aztec_accelerator.Updater.State.{
  StateJson, Disk, Faults, LoadedState, missing, corrupt, valid, load_state, candidate_allowed,
  record_pending, record_pending_from, higher_pending, pending_is_live, quarantine_corrupt,
  pending_ttl_secs, clock_skew_tolerance_secs,
}
use aztec_accelerator.Updater.State.Windows.{live_pending, load-write_state, pending_is_live_iff}

module _ (sv : SemVer) (js : StateJson) where
  open sv use {Version}

  -- No state of the file, forged, corrupt or missing, lets an update through that is not strictly
  -- above the running version, and a corrupt or a missing file binds no more than that.
  pub candidate_above_current :
      (candidate current : Version) (s : LoadedState sv js)
      → (candidate_allowed sv js candidate current s ≡ true → gt sv candidate current ≡ true)
        × (candidate_allowed sv js candidate current corrupt ≡ gt sv candidate current)
        × (candidate_allowed sv js candidate current missing ≡ gt sv candidate current)
  unfolding candidate_allowed
  candidate_above_current candidate current s = (λ h. ground arith, ground arith, ground arith)

  -- The floor and the intent that `record_pending` writes over a loaded state.
  abbrev recorded_floor : LoadedState sv js → Version → Version
  recorded_floor (valid floor _) current = if gt sv current floor then current else floor
  recorded_floor _ current = current

  abbrev recorded_pending : LoadedState sv js → Version → Version
  recorded_pending (valid _ (some p)) candidate = if gt sv p candidate then p else candidate
  recorded_pending _ candidate = candidate

  load-record_pending_from :
      (s : LoadedState sv js) (disk : Disk) (now later : ℕ) (current candidate : Version)
      (faults : Faults)
      → (record_pending_from sv js s disk now current candidate faults).1 ≡ none
      → load_state sv js
          (record_pending_from sv js s disk now current candidate faults).0.file
          later
        ≡ valid
            (recorded_floor s current)
            (live_pending sv js (some (recorded_pending s candidate)) (some now) later)
  unfolding record_pending_from higher_pending
  load-record_pending_from corrupt disk now later current candidate faults h =
      load-write_state sv js (quarantine_corrupt disk now faults) current (some candidate)
        (some now) faults later h
  load-record_pending_from missing disk now later current candidate faults h =
      load-write_state sv js disk current (some candidate) (some now) faults later h
  load-record_pending_from (valid floor none) disk now later current candidate faults h =
      load-write_state sv js disk (if gt sv current floor then current else floor) (some candidate)
        (some now) faults later h
  load-record_pending_from (valid floor (some p)) disk now later current candidate faults h =
      elim (Bool-cases (gt sv p candidate)) [
        | inl e ↦ rw e (
            load-write_state sv js disk (if gt sv current floor then current else floor) (some p)
              (some now) faults later (rw e at h))
        | inr e ↦ rw e (
            load-write_state sv js disk (if gt sv current floor then current else floor)
              (some candidate) (some now) faults later (rw e at h))
      ]

  module _ (order : IsPrecedence sv) where
    open order use {gt-asym, gt-cotrans}

    binds :
        (s : LoadedState sv js) (current candidate running other : Version)
        → candidate_allowed sv js other running
            (valid (recorded_floor s current) (some (recorded_pending s candidate)))
          ≡ true
        → (gt sv candidate other ≡ false) × (gt sv other current ≡ true)
    unfolding candidate_allowed
    binds corrupt current candidate running other h = ground arith
    binds missing current candidate running other h = ground arith
    binds (valid floor none) current candidate running other h =
        ground (arith, gt-cotrans other current floor)
    binds (valid floor (some p)) current candidate running other h = ground (
      arith,
      gt-cotrans other current floor,
      gt-cotrans p other candidate,
      gt-asym other candidate,
    )

    -- After `record_pending` reports success, no instance, whatever version it runs, may install a
    -- version below the recorded candidate while the intent is live, nor one that is not above the
    -- version that recorded it.
    pub record_pending_binds :
        (disk : Disk) (now later : ℕ) (current candidate running other : Version) (faults : Faults)
        → (record_pending sv js disk now current candidate faults).1 ≡ none
        → now ≤ later + clock_skew_tolerance_secs
        → later ≤ now + pending_ttl_secs
        → candidate_allowed sv js other running
            (load_state sv js (record_pending sv js disk now current candidate faults).0.file later)
          ≡ true
        → (gt sv candidate other ≡ false) × (gt sv other current ≡ true)
    unfolding record_pending
    record_pending_binds disk now later current candidate running other faults ok skew ttl h =
        let s = load_state sv js disk.file now in
        let live = (pending_is_live_iff now later).1 (skew, ttl) in
        binds s current candidate running other
          (rw (load-record_pending_from s disk now later current candidate faults ok, live) at h)

    retryable :
        (s : LoadedState sv js) (current candidate : Version) (live : Bool)
        → candidate_allowed sv js candidate current s ≡ true
        → candidate_allowed sv js candidate current (
            valid
              (recorded_floor s current)
              (if live then some (recorded_pending s candidate) else none))
          ≡ true
    unfolding candidate_allowed
    retryable corrupt current candidate live h = ground (arith, gt-asym candidate candidate)
    retryable missing current candidate live h = ground (arith, gt-asym candidate candidate)
    retryable (valid floor none) current candidate live h =
        ground (arith, gt-asym candidate candidate)
    retryable (valid floor (some p)) current candidate live h =
        ground (arith, gt-asym candidate candidate)

    -- An allowed candidate stays allowed after its intent is recorded, at any later time: an install
    -- that failed or was interrupted may be tried again with the same version.
    pub record_pending_retryable :
        (disk : Disk) (now later : ℕ) (current candidate : Version) (faults : Faults)
        → candidate_allowed sv js candidate current (load_state sv js disk.file now) ≡ true
        → (record_pending sv js disk now current candidate faults).1 ≡ none
        → candidate_allowed sv js candidate current
            (load_state sv js (record_pending sv js disk now current candidate faults).0.file later)
          ≡ true
    unfolding record_pending
    record_pending_retryable disk now later current candidate faults allowed ok =
        let s = load_state sv js disk.file now in
        rw (load-record_pending_from s disk now later current candidate faults ok)
          (retryable s current candidate (pending_is_live now later) allowed)
