-- ===== src/Updater/State/Launch.antt =====
-- What `commit_successful_launch` of packages/accelerator/core/src/updater_state.rs makes of any
-- state file, and what a failed write leaves behind.
use aztec_accelerator.Prelude.{
  ℕ, ◌+◌, ◌<◌, ◌≡◌, inl, inr, refl, ◌∙◌, true, Option, none, some, if◌then◌else◌, arith, Bool-cases,
  Option-cases, nat_eq, list_eq,
}
use aztec_accelerator.Prelude.Texts.{Text}
use aztec_accelerator.SemVer.{SemVer, gt, IsPrecedence}
use aztec_accelerator.Updater.State.{
  StateJson, StateFile, Content, text, absent, unreadable, Disk, Faults, LoadedState, missing,
  corrupt, valid, load_state, candidate_allowed, commit_successful_launch, commit_from,
  still_pending, stamp_with, stored_pending_at, stamp_of, pending_is_live, is_live_stamp,
  quarantine_corrupt, pending_ttl_secs, clock_skew_tolerance_secs, load_parsed, load_pending,
  parse_canonical,
}
use aztec_accelerator.Updater.State.Windows.{live_pending, load-write_state, pending_is_live_iff}

module _ (sv : SemVer) (js : StateJson) where
  open sv use {Version}

  load_pending-live :
      (floor f p : Version) (s : Option Text) (at : Option ℕ) (now : ℕ)
      → load_pending sv js floor s at now ≡ valid f (some p)
      → (a : ℕ) × (at ≡ some a) × (pending_is_live a now ≡ true)
  unfolding load_pending is_live_stamp
  load_pending-live floor f p none at now h = cc
  load_pending-live floor f p (some t) none now h = ground arith
  load_pending-live floor f p (some t) (some a) now h = (a, refl, ground arith)

  load_parsed-live :
      (o : Option StateFile) (f p : Version) (now : ℕ)
      → load_parsed sv js o now ≡ valid f (some p)
      → (a : ℕ) × (stamp_of sv js o ≡ some a) × (pending_is_live a now ≡ true)
  unfolding load_parsed stamp_of
  load_parsed-live none f p now h = cc
  load_parsed-live (some s) f p now h = elim (Option-cases (parse_canonical sv js s.floor)) [
    | inl bad ↦ ground arith
    | inr (floor, good) ↦ load_pending-live floor f p s.pending s.pending_at now (ground arith)
  ]

  -- A loaded intent has a live stamp in the file.
  load_state-live :
      (c : Content) (f p : Version) (now : ℕ)
      → load_state sv js c now ≡ valid f (some p)
      → (a : ℕ) × (stored_pending_at sv js c ≡ some a) × (pending_is_live a now ≡ true)
  unfolding load_state stored_pending_at
  load_state-live absent f p now h = cc
  load_state-live unreadable f p now h = cc
  load_state-live (text t) f p now h = load_parsed-live (js.from_str t) f p now h

  -- The floor and the intent that a launch leaves of a loaded state.
  abbrev committed_floor : LoadedState sv js → Version → Version
  committed_floor (valid floor _) current =
      if gt sv current floor then current else if gt sv floor current then current else floor
  committed_floor _ current = current

  abbrev pub committed_pending : LoadedState sv js → Version → Option Version
  committed_pending (valid _ (some p)) current = if gt sv p current then some p else none
  committed_pending _ current = none

  load-commit_from :
      (s : LoadedState sv js) (stamp : Option ℕ) (disk : Disk) (now later : ℕ) (current : Version)
      (faults : Faults)
      → (commit_from sv js s stamp disk now current faults).1 ≡ none
      → load_state sv js (commit_from sv js s stamp disk now current faults).0.file later
        ≡ valid
            (committed_floor s current)
            (live_pending sv js (committed_pending s current) stamp later)
  unfolding commit_from still_pending stamp_with
  load-commit_from corrupt stamp disk now later current faults h =
      load-write_state sv js (quarantine_corrupt disk now faults) current none none faults later h
  load-commit_from missing stamp disk now later current faults h =
      load-write_state sv js disk current none none faults later h
  load-commit_from (valid floor none) stamp disk now later current faults h =
      load-write_state sv js disk _ none none faults later h
  load-commit_from (valid floor (some p)) stamp disk now later current faults h =
      elim (Bool-cases (gt sv p current)) [
        | inl e ↦ rw e (
            load-write_state sv js disk (committed_floor (valid floor (some p)) current) (some p)
              stamp faults later (rw e at h))
        | inr e ↦ rw e (
            load-write_state sv js disk (committed_floor (valid floor (some p)) current) none none
              faults later (rw e at h))
      ]

  module _ (order : IsPrecedence sv) where
    open order use {gt-asym, gt-cotrans}

    allowed_after :
        (s : LoadedState sv js) (current candidate : Version) (pending : Option Version)
        → candidate_allowed sv js candidate current (valid (committed_floor s current) pending)
          ≡ candidate_allowed sv js candidate current (valid current pending)
    unfolding candidate_allowed
    allowed_after corrupt current candidate pending = refl
    allowed_after missing current candidate pending = refl
    allowed_after (valid floor _) current candidate pending =
        ground (arith, gt-cotrans candidate current floor, gt-cotrans candidate floor current)

    -- A successful launch resets the floor: whatever the state file held, a forged floor included,
    -- what reads back allows a candidate exactly as a floor at the running version does, with no
    -- intent but one that was live before and is above the running version.
    pub commit_resets_floor :
        (disk : Disk) (now later : ℕ) (current candidate : Version) (faults : Faults)
        → (commit_successful_launch sv js disk now current faults).1 ≡ none
        → let s = load_state sv js disk.file now in
          candidate_allowed sv js candidate current
            (load_state sv js (commit_successful_launch sv js disk now current faults).0.file later)
          ≡ candidate_allowed sv js candidate current (
              valid current (
                live_pending sv js
                  (committed_pending s current)
                  (stored_pending_at sv js disk.file)
                  later))
    unfolding commit_successful_launch
    commit_resets_floor disk now later current candidate faults ok =
        let s = load_state sv js disk.file now in
        let stamp = stored_pending_at sv js disk.file in
        rw (load-commit_from s stamp disk now later current faults ok)
          (allowed_after s current candidate _)

    expired :
        (s : LoadedState sv js) (disk : Disk) (now later : ℕ) (current : Version)
        → load_state sv js disk.file now ≡ s
        → now + clock_skew_tolerance_secs + pending_ttl_secs < later
        → live_pending sv js (committed_pending s current) (stored_pending_at sv js disk.file) later
          ≡ none
    expired corrupt disk now later current e h = refl
    expired missing disk now later current e h = refl
    expired (valid floor none) disk now later current e h = refl
    expired (valid floor (some p)) disk now later current e h =
        let (at, stamp, live) = load_state-live disk.file floor p now e in
        let window = (pending_is_live_iff at now).0 live in
        let past = (pending_is_live_iff at later).0 in
        elim (Bool-cases (gt sv p current)) [
          | inl above ↦
              rw (above, stamp)
                (elim (Bool-cases (pending_is_live at later)) [
                  | inl still ↦ absurd (omega (arith, past still, window))
                  | inr gone ↦ rw gone refl
                ])
          | inr below ↦ rw below refl
        ]

    -- The update channel cannot be shut for good: after a successful launch, whatever the state file
    -- held before it, every version above the running one is allowed once the clock tolerance and
    -- the lifetime of an intent have passed, and nothing else is.
    pub channel_reopens :
        (disk : Disk) (now later : ℕ) (current candidate : Version) (faults : Faults)
        → (commit_successful_launch sv js disk now current faults).1 ≡ none
        → now + clock_skew_tolerance_secs + pending_ttl_secs < later
        → candidate_allowed sv js candidate current
            (load_state sv js (commit_successful_launch sv js disk now current faults).0.file later)
          ≡ gt sv candidate current
    unfolding candidate_allowed
    channel_reopens disk now later current candidate faults ok h =
        let s = load_state sv js disk.file now in
        commit_resets_floor disk now later current candidate faults ok
        ∙ rw (expired s disk now later current refl h) (ground arith)
