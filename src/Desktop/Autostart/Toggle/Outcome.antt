-- ===== src/Desktop/Autostart/Toggle/Outcome.antt =====
-- What the switch of packages/accelerator/src-tauri/src/autostart.rs leaves behind, whether it succeeds or
-- fails.
use aztec_accelerator.Prelude.{
  ◌≡◌, ◌≢◌, inl, inr, refl, sym, subst, ap, ◌∙◌, Bool, true, false, not, Option, none, some,
  Bool-cases, arith,
}
use aztec_accelerator.Prelude.Tests.{if-true, if-false}
use aztec_accelerator.Prelude.Texts.{Text}
use aztec_accelerator.Prelude.Results.{Result, ok, err}
use aztec_accelerator.Desktop.Autostart.Store.{
  Artifact, StoreErr, read_raw, enable_write, autostart_path_is_safe, WriteResult,
}
use aztec_accelerator.Desktop.Autostart.Store.Writes.{
  StartsAt, enable_write-StartsAt, SnapshotOf, read_raw-SnapshotOf, restore-SnapshotOf,
}
use aztec_accelerator.Desktop.Autostart.Toggle.{
  World, ToggleEnv, EnableErr, no_lock, switch, set_enabled_at, prior_enabled_of,
  enable_transaction, arm_step, fresh_step, entered_step, roll_back, enabled_of, plugin_enable_of,
  plugin_enable, crash_arm, crash_disarm, plugin_disable, restored, enable_result, fresh, turn_on,
}

-- What the launcher step leaves: the new entry with a snapshot of the old, or the old file.
abbrev EntryStep : Artifact → Text → World × Bool → Type 0
EntryStep file path (w, done) =
    (done ≡ true
      → StartsAt w.file path
        × ((prior : Option Text) × (w.snapshot ≡ some prior) × SnapshotOf prior file))
    × (done ≡ false → w.file ≡ file)

enabled_of-EntryStep :
    (w : World) (file : Artifact) (path : Text) (written : WriteResult) (prior : Option Text)
    → SnapshotOf prior file
    → (written.1 ≡ none → StartsAt written.0 path)
    → EntryStep file path (enabled_of w written prior true)
unfolding enabled_of
enabled_of-EntryStep w file path (now, none) prior snap starts =
    (λ h. (starts refl, (prior, refl, snap)), λ h. absurd (ground arith))
enabled_of-EntryStep w file path (now, some e) prior snap starts = (
  λ h. absurd (ground arith),
  λ h. ap (λ (p : WriteResult). p.0) (restore-SnapshotOf file now prior snap),
)

plugin_enable_of-EntryStep :
    (w : World) (raw : Result (Option Text) StoreErr) (path : Text) (env : ToggleEnv)
    → read_raw w.file ≡ raw
    → autostart_path_is_safe path ≡ true
    → env.restore_works ≡ true
    → EntryStep w.file path (plugin_enable_of w raw path env)
unfolding plugin_enable_of
plugin_enable_of-EntryStep w (err e) path env same safe works =
    (λ h. absurd (ground arith), λ h. refl)
plugin_enable_of-EntryStep w (ok prior) path env same safe works =
    let (starts, stays) = enable_write-StartsAt w.file path env.enable_works safe in
    rw works (
      enabled_of-EntryStep w w.file path (enable_write w.file path env.enable_works) prior
        (read_raw-SnapshotOf w.file prior same) starts)

-- What the switch promises for a path that it is turned on for.
abbrev pub TurnedOn : {E : Type 0} → Artifact → Text → ToggleEnv → World × Option E → Type 0
TurnedOn file path env (w, failure) =
    (failure ≡ none → (w.armed ≡ true) × StartsAt w.file path)
    × (failure ≢ none → (w.file ≡ file) × (env.disarm_confirmed ≡ true → w.armed ≡ false))

module _ (path : Text) (env : ToggleEnv) (works : env.restore_works ≡ true) where
  abbrev arming : Bool → World → World × Option EnableErr
  arming prior w =
      arm_step (plugin_enable path env) (crash_arm env) (plugin_disable env) (crash_disarm env)
        prior w

  arm_fresh :
      (file now : Artifact) (armed : Bool) (prior : Option Text)
      → SnapshotOf prior file
      → StartsAt now path
      → TurnedOn file path env
          (arming false (record { file = now; armed = armed; snapshot = some prior }))
  unfolding arm_step roll_back crash_arm crash_disarm plugin_disable restored
  arm_fresh file now armed prior snap starts = elim (Bool-cases env.arm_ok) [
    | inl done ↦ rw done (λ h. (refl, starts), λ h. absurd (h refl))
    | inr failed ↦ elim (Bool-cases env.disarm_confirmed) [
      | inl gone_now ↦
          rw (failed, gone_now, works, restore-SnapshotOf file now prior snap)
            (λ h. absurd (ground (arith, h)), λ h. (refl, λ c. refl))
      | inr unsure ↦
          rw (failed, unsure, works, restore-SnapshotOf file now prior snap)
            (λ h. absurd (ground (arith, h)), λ h. (refl, λ c. absurd (ground (arith, c))))
    ]
  ]

  entered-TurnedOn :
      (file : Artifact) (w : World) (done : Bool)
      → EntryStep file path (w, done)
      → TurnedOn file path env (
          entered_step
            (plugin_enable path env)
            (crash_arm env)
            (plugin_disable env)
            (crash_disarm env)
            (w, done))
  unfolding entered_step crash_disarm
  entered-TurnedOn file w true (enters, stays) =
      let (starts, (prior, snapshot, snap)) = enters refl in
      subst (λ o. TurnedOn file path env (arming false (record w { snapshot = o }))) (sym snapshot)
        (arm_fresh file w.file w.armed prior snap starts)
  entered-TurnedOn file w false (enters, stays) = elim (Bool-cases env.disarm_confirmed) [
    | inl gone_now ↦ rw gone_now (λ h. absurd (ground (arith, h)), λ h. (stays refl, λ c. refl))
    | inr unsure ↦
        rw unsure
          (λ h. absurd (ground (arith, h)), λ h. (stays refl, λ c. absurd (ground (arith, c))))
  ]

  fresh-TurnedOn :
      (w : World)
      → autostart_path_is_safe path ≡ true
      → TurnedOn w.file path env (
          fresh_step
            (plugin_enable path env)
            (crash_arm env)
            (plugin_disable env)
            (crash_disarm env)
            w)
  unfolding fresh_step plugin_enable
  fresh-TurnedOn w safe =
      let (w', done) = plugin_enable path env w in
      entered-TurnedOn w.file w' done
        (plugin_enable_of-EntryStep w (read_raw w.file) path env refl safe works)

-- Where a sound entry is there already, it is left as it is.
abbrev pub LeftOn : {E : Type 0} → Artifact → World × Option E → Type 0
LeftOn file (w, failure) = (w.file ≡ file) × (failure ≡ none → w.armed ≡ true)

arm_step-LeftOn :
    (w : World) (path : Text) (env : ToggleEnv)
    → LeftOn w.file (
        arm_step
          (plugin_enable path env)
          (crash_arm env)
          (plugin_disable env)
          (crash_disarm env)
          true
          w)
unfolding arm_step crash_arm
arm_step-LeftOn w path env = elim (Bool-cases env.arm_ok) [
  | inl done ↦ rw done (refl, λ h. refl)
  | inr failed ↦ rw failed (refl, λ h. absurd (ground (arith, h)))
]

enable_result-TurnedOn :
    (file : Artifact) (path : Text) (env : ToggleEnv) (r : World × Option EnableErr)
    → TurnedOn file path env r
    → TurnedOn file path env (enable_result r)
unfolding enable_result
enable_result-TurnedOn file path env (w, none) (on, off) = (λ h. on refl, λ h. absurd (h refl))
enable_result-TurnedOn file path env (w, some e) (on, off) =
    (λ h. absurd (ground (arith, h)), λ h. off (λ c. absurd (ground (arith, c))))

enable_result-LeftOn :
    (file : Artifact) (r : World × Option EnableErr) → LeftOn file r → LeftOn file (enable_result r)
unfolding enable_result
enable_result-LeftOn file (w, none) (same, on) = (same, λ h. on refl)
enable_result-LeftOn file (w, some e) (same, on) = (same, λ h. absurd (ground (arith, h)))

pub turn_on-form :
    (file : Artifact) (armed : Bool) (path : Text) (env : ToggleEnv)
    → env.locked ≡ true
    → env.desired_exists ≡ true
    → autostart_path_is_safe path ≡ true
    → set_enabled_at file armed (some path) true env
      ≡ enable_result (
          enable_transaction
            (plugin_enable path env)
            (crash_arm env)
            (plugin_disable env)
            (crash_disarm env)
            (prior_enabled_of env.paths file)
            (record { file = file; armed = armed; snapshot = none }))
unfolding set_enabled_at switch turn_on fresh
turn_on-form file armed path env held there safe =
    if-false (not env.locked) _ _ (ap not held)
    ∙ if-false (not env.desired_exists) _ _ (ap not there)
    ∙ if-false (not (autostart_path_is_safe path)) _ _ (ap not safe)

pub no_lock-form :
    (file : Artifact) (armed enabled : Bool) (desired : Option Text) (env : ToggleEnv)
    → env.locked ≡ false
    → set_enabled_at file armed desired enabled env
      ≡ (record { file = file; armed = armed; snapshot = none }, some no_lock)
unfolding set_enabled_at fresh
no_lock-form file armed enabled desired env busy = if-true (not env.locked) _ _ (ap not busy)

-- Turning autostart on, for an own path that exists and is safe, is all or nothing, provided that the
-- file can be put back. If the lock is not granted it fails, and neither the file nor crash recovery
-- has changed. Once the lock is held, and where there was no sound entry: if it succeeds, the entry
-- starts the path, is not hidden, and crash recovery is armed; if it fails, at whatever step, the
-- file is the one before, and crash recovery is off unless that is reported as unconfirmed. A sound
-- entry is left as it is.
pub turn_on_atomic :
    (file : Artifact) (armed : Bool) (path : Text) (env : ToggleEnv)
    → env.desired_exists ≡ true
    → autostart_path_is_safe path ≡ true
    → env.restore_works ≡ true
    → (env.locked ≡ false
        → set_enabled_at file armed (some path) true env
          ≡ (record { file = file; armed = armed; snapshot = none }, some no_lock))
      × (env.locked ≡ true
          → prior_enabled_of env.paths file ≡ false
          → TurnedOn file path env (set_enabled_at file armed (some path) true env))
      × (env.locked ≡ true
          → prior_enabled_of env.paths file ≡ true
          → LeftOn file (set_enabled_at file armed (some path) true env))
unfolding enable_transaction
turn_on_atomic file armed path env there safe works =
    let w : World = record { file = file; armed = armed; snapshot = none } in
    (
      no_lock-form file armed true (some path) env,
      λ held prior.
          let form = turn_on-form file armed path env held there safe in
          subst (TurnedOn file path env)
            (sym (form ∙ ap enable_result (if-false (prior_enabled_of env.paths file) _ _ prior)))
            (enable_result-TurnedOn file path env _ (fresh-TurnedOn path env works w safe)),
      λ held prior.
          let form = turn_on-form file armed path env held there safe in
          subst (LeftOn file)
            (sym (form ∙ ap enable_result (if-true (prior_enabled_of env.paths file) _ _ prior)))
            (enable_result-LeftOn file _ (arm_step-LeftOn w path env)),
    )
