-- ===== src/Updater/State/Windows.antt =====
-- The life of a stored install intent in packages/accelerator/core/src/updater_state.rs: its time
-- window, and what a written state file reads back as.
use aztec_accelerator.Prelude.{
  ℕ, ◌+◌, ◌≤◌, ◌≡◌, ◌≢◌, ◌↔◌, ◌⊎◌, inl, inr, refl, true, Option, none, some, nat_eq, list_eq,
  if◌then◌else◌, arith, eq_refl, Option-cases,
}
use aztec_accelerator.Prelude.Texts.{Text}
use aztec_accelerator.SemVer.{SemVer}
use aztec_accelerator.Updater.State.{
  pending_ttl_secs, clock_skew_tolerance_secs, StateJson, text, pending_is_live, is_live_stamp,
  WriteStep, sync_dir, Disk, Faults, valid, parse_canonical, load_state, write_state, state_file,
  replace, load_parsed, load_pending,
}

-- A stamp is live exactly from its TTL back to the clock tolerance ahead, in both directions.
pub pending_is_live_iff :
    (at now : ℕ)
    → (pending_is_live at now ≡ true)
      ↔ ((at ≤ now + clock_skew_tolerance_secs) × (now ≤ at + pending_ttl_secs))
unfolding pending_is_live
pending_is_live_iff at now = (λ h. ground arith, λ h. ground arith)

module _ (sv : SemVer) (js : StateJson) where
  open sv use {Version, to_string, parse-to_string}
  open js use {from_str, to_vec, from_str-to_vec}

  parse_canonical-to_string : (v : Version) → parse_canonical sv js (to_string v) ≡ some v
  unfolding parse_canonical
  parse_canonical-to_string v = rw (parse-to_string v, eq_refl (to_string v))

  -- A pending intent as it reads back at a later time.
  abbrev pub live_pending : Option Version → Option ℕ → ℕ → Option Version
  live_pending none at now = none
  live_pending (some p) none now = none
  live_pending (some p) (some at) now = if pending_is_live at now then some p else none

  load_parsed-state_file :
      (floor : Version) (pending : Option Version) (at : Option ℕ) (now : ℕ)
      → load_parsed sv js (some (state_file sv js floor pending at)) now
        ≡ valid floor (live_pending pending at now)
  unfolding load_parsed load_pending state_file is_live_stamp
  load_parsed-state_file floor none at now = ground (arith, parse_canonical-to_string floor)
  load_parsed-state_file floor (some p) none now =
      ground (arith, parse_canonical-to_string floor, parse_canonical-to_string p)
  load_parsed-state_file floor (some p) (some at) now =
      ground (arith, parse_canonical-to_string floor, parse_canonical-to_string p)

  -- A text that the writer produced reads back as the state that was written.
  load-to_vec :
      (floor : Version) (pending : Option Version) (at : Option ℕ) (now : ℕ) {t : Text}
      → to_vec (state_file sv js floor pending at) ≡ some t
      → load_state sv js (text t) now ≡ valid floor (live_pending pending at now)
  unfolding load_state
  load-to_vec floor pending at now h =
      rw (from_str-to_vec (state_file sv js floor pending at) h)
        (load_parsed-state_file floor pending at now)

  replace-cases :
      (t : Text) (fault : Option WriteStep) (disk : Disk)
      → ((replace sv js (some t) fault disk).0 ≡ record disk { file = text t })
        ⊎ (((replace sv js (some t) fault disk).0 ≡ disk)
            × ((replace sv js (some t) fault disk).1 ≢ none))
  unfolding replace
  replace-cases t none disk = inl refl
  replace-cases t (some sync_dir) disk = inl refl
  replace-cases t (some _) disk = inr (refl, λ e. cc)

  -- The disk holds a new state file, and what was moved aside stays.
  abbrev pub Stored : Disk → Disk → Version → Option Version → Option ℕ → Type 0
  Stored before after floor pending at =
      (t : Text) × (after ≡ record before { file = text t })
      × (to_vec (state_file sv js floor pending at) ≡ some t)

  -- A write leaves the disk alone and fails, or stores a text that the writer produced.
  pub write_state-cases :
      (disk : Disk) (floor : Version) (pending : Option Version) (at : Option ℕ) (faults : Faults)
      → Stored disk (write_state sv js disk floor pending at faults).0 floor pending at
        ⊎ (((write_state sv js disk floor pending at faults).0 ≡ disk)
            × ((write_state sv js disk floor pending at faults).1 ≢ none))
  unfolding write_state
  write_state-cases disk floor pending at faults =
      elim (Option-cases (to_vec (state_file sv js floor pending at))) [
        | inl failed ↦ inr (rw (failed, replace) refl, rw (failed, replace) (λ e. cc))
        | inr (t, written) ↦ elim (replace-cases t faults.write_fault disk) [
          | inl new ↦ inl (t, rw written new, written)
          | inr (same, err) ↦ inr (rw written same, rw written err)
        ]
      ]

  pub Stored-load :
      (before after : Disk) (floor : Version) (pending : Option Version) (at : Option ℕ) (now : ℕ)
      → Stored before after floor pending at
      → load_state sv js after.file now ≡ valid floor (live_pending pending at now)
  Stored-load before after floor pending at now (t, e, w) =
      rw e (load-to_vec floor pending at now w)

  -- A write that reports success reads back, at any later time, as the floor that was written with
  -- the pending intent while its stamp is live.
  pub load-write_state :
      (disk : Disk) (floor : Version) (pending : Option Version) (at : Option ℕ) (faults : Faults)
      (now : ℕ)
      → (write_state sv js disk floor pending at faults).1 ≡ none
      → load_state sv js (write_state sv js disk floor pending at faults).0.file now
        ≡ valid floor (live_pending pending at now)
  load-write_state disk floor pending at faults now h =
      elim (write_state-cases disk floor pending at faults) [
        | inl stored ↦ Stored-load disk _ floor pending at now stored
        | inr (_, err) ↦ absurd (err h)
      ]
