-- ===== src/Updater/State/Atomic.antt =====
-- What a mutation of packages/accelerator/core/src/updater_state.rs that may fail at any step leaves
-- on disk.
use aztec_accelerator.Prelude.{
  ℕ, ◌≡◌, ◌⊎◌, inl, inr, refl, ap, ◌∙◌, Option, none, some, ◌∷◌, Bool-cases, ◌≢◌,
}
use aztec_accelerator.SemVer.{SemVer}
use aztec_accelerator.Updater.State.{
  StateJson, absent, Disk, Faults, Written, LoadedState, missing, corrupt, valid, load_state,
  commit_successful_launch, commit_from, still_pending, stamp_with, stored_pending_at, write_state,
  quarantine_corrupt, record_pending, record_pending_from, higher_pending,
}
use aztec_accelerator.Updater.State.Windows.{live_pending, write_state-cases, Stored-load}

module _ (sv : SemVer) (js : StateJson) where
  open sv use {Version}

  -- The disk is as it was; or the unreadable file stands aside under the time, and no file is in its
  -- place; or the file reads back as a valid state at every time. A success is the last.
  abbrev pub Settled : Disk → ℕ → Disk × Written → Type 0
  Settled before now (after, result) =
      (after ≡ before × (result ≢ none))
      ⊎ ((after.file ≡ absent)
          × (after.aside ≡ (now, before.file) ∷ before.aside)
          × (result ≢ none))
      ⊎ ((later : ℕ)
          → (floor : Version) × (pending : Option Version) × (load_state sv js after.file later
              ≡ valid floor pending))

  write-Settled :
      (disk : Disk) (now : ℕ) (floor : Version) (pending : Option Version) (at : Option ℕ)
      (faults : Faults)
      → Settled disk now (write_state sv js disk floor pending at faults)
  write-Settled disk now floor pending at faults =
      elim (write_state-cases sv js disk floor pending at faults) [
        | inl stored ↦ inr (
            inr (λ later. (
              floor,
              live_pending sv js pending at later,
              Stored-load sv js disk _ floor pending at later stored,
            )))
        | inr (same, err) ↦ inl (same, err)
      ]

  quarantine-cases :
      (disk : Disk) (now : ℕ) (faults : Faults)
      → (quarantine_corrupt disk now faults ≡ disk)
        ⊎ (quarantine_corrupt disk now faults
            ≡ record { file = absent; aside = (now, disk.file) ∷ disk.aside })
  unfolding quarantine_corrupt
  quarantine-cases disk now faults = elim (Bool-cases faults.rename_ok) [
    | inl moved ↦ inr (rw moved refl)
    | inr kept ↦ inl (rw kept refl)
  ]

  quarantine-Settled :
      (disk : Disk) (now : ℕ) (floor : Version) (pending : Option Version) (at : Option ℕ)
      (faults : Faults)
      → Settled disk now
          (write_state sv js (quarantine_corrupt disk now faults) floor pending at faults)
  quarantine-Settled disk now floor pending at faults =
      let moved = quarantine_corrupt disk now faults in
      elim (write_state-cases sv js moved floor pending at faults) [
        | inl stored ↦ inr (
            inr (λ later. (
              floor,
              live_pending sv js pending at later,
              Stored-load sv js moved _ floor pending at later stored,
            )))
        | inr (same, err) ↦ elim (quarantine-cases disk now faults) [
          | inl kept ↦ inl (same ∙ kept, err)
          | inr away ↦ inr (
              inl (
                ap (λ (d : Disk). d.file) (same ∙ away),
                ap (λ (d : Disk). d.aside) (same ∙ away),
                err,
              ))
        ]
      ]

  record-Settled :
      (s : LoadedState sv js) (disk : Disk) (now : ℕ) (current candidate : Version)
      (faults : Faults)
      → Settled disk now (record_pending_from sv js s disk now current candidate faults)
  unfolding record_pending_from
  record-Settled corrupt disk now current candidate faults =
      quarantine-Settled disk now current (some candidate) (some now) faults
  record-Settled missing disk now current candidate faults =
      write-Settled disk now current (some candidate) (some now) faults
  record-Settled (valid floor pending) disk now current candidate faults =
      write-Settled disk now _ (higher_pending sv js candidate pending) (some now) faults

  commit-Settled :
      (s : LoadedState sv js) (stamp : Option ℕ) (disk : Disk) (now : ℕ) (current : Version)
      (faults : Faults)
      → Settled disk now (commit_from sv js s stamp disk now current faults)
  unfolding commit_from
  commit-Settled corrupt stamp disk now current faults =
      quarantine-Settled disk now current none none faults
  commit-Settled missing stamp disk now current faults =
      write-Settled disk now current none none faults
  commit-Settled (valid floor pending) stamp disk now current faults =
      let p = still_pending sv js current pending in
      write-Settled disk now _ p (stamp_with sv js p stamp) faults

  -- Both mutations, from any disk, with any answer of the file system: the disk is as it was; or the
  -- unreadable file stands aside under the time and none is in its place; or the file reads back as
  -- a valid state at every later time. Of the three only the last can report success, so no failure
  -- leaves a half-written file.
  pub mutations_atomic :
      (disk : Disk) (now : ℕ) (current candidate : Version) (faults : Faults)
      → Settled disk now (record_pending sv js disk now current candidate faults)
        × Settled disk now (commit_successful_launch sv js disk now current faults)
  unfolding record_pending commit_successful_launch
  mutations_atomic disk now current candidate faults =
      let s = load_state sv js disk.file now in
      (
        record-Settled s disk now current candidate faults,
        commit-Settled s (stored_pending_at sv js disk.file) disk now current faults,
      )
