-- ===== src/Updater/State.antt =====
-- packages/accelerator/core/src/updater_state.rs: the monotonic version floor. The state file is a
-- value; `serde_json` is the parameter `StateJson`; what the file system answers is in the arguments.
pub mod Windows
pub mod Decision
pub mod Launch
pub mod Atomic
pub mod Sample
pub mod Tests
use aztec_accelerator.Prelude.{
  ℕ, ◌-◌, ◌*◌, ◌≡◌, Bool, true, false, not, ◌&&◌, Option, none, some, List, ◌∷◌, ltb, leb, ◌==◌,
  nat_eq, list_eq, if◌then◌else◌,
}
use aztec_accelerator.Prelude.Texts.{Text}
use aztec_accelerator.SemVer.{SemVer, gt}

abbrev pub schema_version : ℕ
schema_version = 1

abbrev pub pending_ttl_secs : ℕ
pending_ttl_secs = 24 * 60 * 60

abbrev pub clock_skew_tolerance_secs : ℕ
clock_skew_tolerance_secs = 15 * 60

-- The persisted state.
pub record StateFile : Type 0 where
  pub schema : ℕ
  pub floor : Text
  pub pending : Option Text
  pub pending_at : Option ℕ

-- `serde_json` at `StateFile`: the strict reader, and the writer.
pub record StateJson : Type 0 where
  pub from_str : Text → Option StateFile
  pub to_vec : StateFile → Option Text
  pub from_str-to_vec : (s : StateFile) {t : Text} → to_vec s ≡ some t → from_str t ≡ some s

-- What reading the path gives: no file, an error other than "not found", or a text.
pub data Content : Type 0 where
  absent : Content
  unreadable : Content
  text : Text → Content

-- Is the stamp inside the window, in both directions? No subtraction stops at 0 here.
pub pending_is_live : ℕ → ℕ → Bool
pending_is_live at now =
    if ltb now at then leb (at - now) clock_skew_tolerance_secs else leb (now - at) pending_ttl_secs

is_live_stamp : Option ℕ → ℕ → Bool
is_live_stamp none now = false
is_live_stamp (some at) now = pending_is_live at now

-- The steps of `write_state` at which it may fail.
pub data WriteStep : Type 0 where
  find_parent create_dir set_dir_mode serialize create_temp set_temp_mode write_temp sync_temp
        persist sync_dir :
      WriteStep

-- The state file and the files that were moved aside, each under the time in its name.
pub record Disk : Type 0 where
  pub file : Content
  pub aside : List (ℕ × Content)

-- What the file system answers to one mutation: whether the rename of a corrupt file succeeds, and
-- the first step of the write that fails, if any.
pub record Faults : Type 0 where
  pub rename_ok : Bool
  pub write_fault : Option WriteStep

-- `io::Result<()>`
abbrev pub Written : Type 0
Written = Option WriteStep

-- `quarantine_corrupt`
pub quarantine_corrupt : Disk → ℕ → Faults → Disk
quarantine_corrupt disk now faults =
    if faults.rename_ok
    then record { file = absent; aside = (now, disk.file) ∷ disk.aside }
    else disk

module _ (sv : SemVer) (js : StateJson) where
  open sv use {Version, parse, to_string}
  open js use {from_str, to_vec}

  pub data LoadedState : Type 0 where
    missing : LoadedState
    corrupt : LoadedState
    valid : Version → Option Version → LoadedState

  canonical : Option Version → Text → Option Version
  canonical none s = none
  canonical (some v) s = if to_string v == s then some v else none

  unfoldable pub parse_canonical : Text → Option Version
  unfolding canonical
  parse_canonical s = canonical (parse s) s

  -- The part of `load_state` behind the floor: a `pending` that does not parse is corruption, and
  -- one whose stamp is not live is dropped.
  load_pending : Version → Option Text → Option ℕ → ℕ → LoadedState
  load_pending floor none at now = valid floor none
  load_pending floor (some s) at now = elim (parse_canonical s) [
    | none ↦ corrupt
    | some v ↦ valid floor (if is_live_stamp at now then some v else none)
  ]

  load_parsed : Option StateFile → ℕ → LoadedState
  load_parsed none now = corrupt
  load_parsed (some f) now =
      if f.schema == schema_version
      then elim (parse_canonical f.floor) [
        | none ↦ corrupt
        | some floor ↦ load_pending floor f.pending f.pending_at now
      ]
      else corrupt

  unfoldable pub load_state : Content → ℕ → LoadedState
  unfolding load_parsed load_pending parse_canonical is_live_stamp
  load_state absent now = missing
  load_state unreadable now = corrupt
  load_state (text t) now = load_parsed (from_str t) now

  stamp_of : Option StateFile → Option ℕ
  stamp_of none = none
  stamp_of (some f) = f.pending_at

  unfoldable pub stored_pending_at : Content → Option ℕ
  unfolding stamp_of
  stored_pending_at (text t) = stamp_of (from_str t)
  stored_pending_at _ = none

  -- candidate >= pending, where there is a pending
  not_below_pending : Version → Option Version → Bool
  not_below_pending candidate none = true
  not_below_pending candidate (some p) = not (gt sv p candidate)

  allowed_by : Version → LoadedState → Bool
  allowed_by candidate corrupt = true
  allowed_by candidate missing = true
  allowed_by candidate (valid floor pending) =
      gt sv candidate floor && not_below_pending candidate pending

  unfoldable pub candidate_allowed : Version → Version → LoadedState → Bool
  unfolding allowed_by not_below_pending
  candidate_allowed candidate current state = gt sv candidate current && allowed_by candidate state

  unfoldable pub running_below_floor : Version → LoadedState → Bool
  running_below_floor current (valid floor _) = gt sv floor current
  running_below_floor current _ = false

  print : Option Version → Option Text
  print none = none
  print (some v) = some (to_string v)

  -- `pending.and(pending_at)`
  stamp_with : Option Version → Option ℕ → Option ℕ
  stamp_with none at = none
  stamp_with (some _) at = at

  pub state_file : Version → Option Version → Option ℕ → StateFile
  unfolding print stamp_with
  state_file floor pending at = record {
    schema = schema_version;
    floor = to_string floor;
    pending = print pending;
    pending_at = stamp_with pending at;
  }

  replace : Option Text → Option WriteStep → Disk → Disk × Written
  replace none fault disk = (disk, some serialize)
  replace (some body) none disk = (record disk { file = text body }, none)
  replace (some body) (some sync_dir) disk = (record disk { file = text body }, some sync_dir)
  replace (some body) (some step) disk = (disk, some step)

  -- The new text is in place from the rename on; only the sync of the directory comes behind it.
  unfoldable pub write_state : Disk → Version → Option Version → Option ℕ → Faults → Disk × Written
  unfolding state_file replace
  write_state disk floor pending at faults =
      replace (to_vec (state_file floor pending at)) faults.write_fault disk

  higher_pending : Version → Option Version → Option Version
  higher_pending candidate none = some candidate
  higher_pending candidate (some p) = if gt sv p candidate then some p else some candidate

  record_pending_from : LoadedState → Disk → ℕ → Version → Version → Faults → Disk × Written
  record_pending_from corrupt disk now current candidate faults =
      write_state (quarantine_corrupt disk now faults) current (some candidate) (some now) faults
  record_pending_from missing disk now current candidate faults =
      write_state disk current (some candidate) (some now) faults
  record_pending_from (valid floor pending) disk now current candidate faults =
      write_state disk (if gt sv current floor then current else floor)
        (higher_pending candidate pending) (some now) faults

  unfoldable pub record_pending : Disk → ℕ → Version → Version → Faults → Disk × Written
  unfolding record_pending_from higher_pending quarantine_corrupt load_state
  record_pending disk now current candidate faults =
      record_pending_from (load_state disk.file now) disk now current candidate faults

  -- `pending.filter(|p| gt(p, current))`
  still_pending : Version → Option Version → Option Version
  still_pending current none = none
  still_pending current (some p) = if gt sv p current then some p else none

  commit_from : LoadedState → Option ℕ → Disk → ℕ → Version → Faults → Disk × Written
  commit_from corrupt stamp disk now current faults =
      write_state (quarantine_corrupt disk now faults) current none none faults
  commit_from missing stamp disk now current faults = write_state disk current none none faults
  commit_from (valid floor pending) stamp disk now current faults =
      let pending' = still_pending current pending in
      write_state disk
        (if gt sv current floor then current else if gt sv floor current then current else floor)
        pending' (stamp_with pending' stamp) faults

  unfoldable pub commit_successful_launch : Disk → ℕ → Version → Faults → Disk × Written
  unfolding commit_from still_pending stamp_with quarantine_corrupt load_state stored_pending_at
  commit_successful_launch disk now current faults =
      commit_from (load_state disk.file now) (stored_pending_at disk.file) disk now current faults
