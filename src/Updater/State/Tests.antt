-- ===== src/Updater/State/Tests.antt =====
-- Runs of packages/accelerator/core/src/updater_state.rs: the version is a text whose length orders
-- it, the state file holds a floor below the running version, and a candidate is above it.
use aztec_accelerator.Prelude.{◌≡◌, refl, true, false, none, [], arith, nat_eq, list_eq}
use aztec_accelerator.Prelude.Equality.{list_beq}
use aztec_accelerator.Prelude.Texts.{Text, codes}
use aztec_accelerator.SemVer.{gt}
use aztec_accelerator.SemVer.Sample.{sample, sample_precedence}
use aztec_accelerator.Updater.State.{
  Disk, Faults, text, corrupt, missing, valid, load_state, stored_pending_at, candidate_allowed,
  record_pending, commit_successful_launch, pending_is_live, write_state, parse_canonical,
}
use aztec_accelerator.Updater.State.Sample.{sample_json, bytes}
use aztec_accelerator.Updater.State.Windows.{live_pending}
use aztec_accelerator.Updater.State.Decision.{record_pending_binds, candidate_above_current}
use aztec_accelerator.Updater.State.Launch.{channel_reopens, commit_resets_floor, committed_pending}
use aztec_accelerator.Updater.State.Atomic.{mutations_atomic, Settled}

abbrev v1 : Text
v1 = codes "1"

abbrev v2 : Text
v2 = codes "1.1"

abbrev v3 : Text
v3 = codes "1.1.1"

abbrev stored : Disk
stored = record {
  file = text (bytes (record { schema = 1; floor = v1; pending = none; pending_at = none }));
  aside = [];
}

-- A forged floor far above the running version.
abbrev forged : Disk
forged = record {
  file =
      text (
        bytes
          (record { schema = 1; floor = codes "9.9.9.9.9"; pending = none; pending_at = none }));
  aside = [];
}

abbrev no_faults : Faults
no_faults = record { rename_ok = true; write_fault = none }

candidate_above_current_example :
    (candidate_allowed sample sample_json v3 v2 (load_state sample sample_json forged.file 1000)
        ≡ true
      → gt sample v3 v2 ≡ true)
    × (candidate_allowed sample sample_json v3 v2 corrupt ≡ gt sample v3 v2)
    × (candidate_allowed sample sample_json v3 v2 missing ≡ gt sample v3 v2)
candidate_above_current_example =
    candidate_above_current sample sample_json v3 v2
      (load_state sample sample_json forged.file 1000)

mutations_atomic_example :
    Settled sample sample_json stored 1000
      (record_pending sample sample_json stored 1000 v2 v3 no_faults)
    × Settled sample sample_json stored 1000
        (commit_successful_launch sample sample_json stored 1000 v2 no_faults)
mutations_atomic_example = mutations_atomic sample sample_json stored 1000 v2 v3 no_faults

channel_reopens_example :
    candidate_allowed sample sample_json v3 v2 (
      load_state sample sample_json
        (commit_successful_launch sample sample_json forged 1000 v2 no_faults).0.file
        100000)
    ≡ gt sample v3 v2
unfolding commit_successful_launch load_state parse_canonical stored_pending_at write_state gt
    list_beq
channel_reopens_example =
    channel_reopens sample sample_json sample_precedence forged 1000 100000 v2 v3 no_faults refl
      (omega arith)

commit_resets_floor_example :
    let s = load_state sample sample_json forged.file 1000 in
    candidate_allowed sample sample_json v3 v2 (
      load_state sample sample_json
        (commit_successful_launch sample sample_json forged 1000 v2 no_faults).0.file
        2000)
    ≡ candidate_allowed sample sample_json v3 v2 (
        valid v2 (
          live_pending sample sample_json
            (committed_pending sample sample_json s v2)
            (stored_pending_at sample sample_json forged.file)
            2000))
unfolding commit_successful_launch load_state parse_canonical stored_pending_at write_state gt
    list_beq
commit_resets_floor_example =
    commit_resets_floor sample sample_json sample_precedence forged 1000 2000 v2 v3 no_faults refl

-- While the intent for v3 is live, the version that recorded it may still install v3.
record_pending_binds_example : (gt sample v3 v3 ≡ false) × (gt sample v3 v2 ≡ true)
unfolding record_pending candidate_allowed load_state parse_canonical write_state pending_is_live gt
    list_beq
record_pending_binds_example =
    record_pending_binds sample sample_json sample_precedence stored 1000 2000 v2 v3 v2 v3 no_faults
      refl (omega arith) (omega arith) refl
