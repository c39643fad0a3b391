-- ===== src/Desktop/Autostart/Toggle.antt =====
-- The switch "Start on Login" on Linux: `set_enabled_at` in
-- packages/accelerator/src-tauri/src/autostart.rs, over `enable_transaction` in
-- packages/accelerator/src-tauri/src/crash_recovery.rs. It runs under the
-- autostart lock, which it takes first or fails, so a run is one step.
pub mod Outcome
pub mod Refused
use aztec_accelerator.Prelude.{Bool, true, false, not, Option, none, some, if◌then◌else◌}
use aztec_accelerator.Prelude.Texts.{Text}
use aztec_accelerator.Prelude.Results.{Result, ok, err}
use aztec_accelerator.Desktop.Autostart.Store.{
  Artifact, StoreErr, StoredTarget, absent, healthy, broken, unreadable_target, Paths, read_raw,
  read_stored_target, platform_disabled, enable_write, remove_entry, restore, WriteResult,
  autostart_path_is_safe,
}

-- What became of the launcher entry in a rollback.
pub data RolledBack : Type 0 where
  kept disabled still_enabled : RolledBack

pub data EnableErr : Type 0 where
  plugin_step : (disarmed : Bool) → EnableErr
  recovery_step : (disarmed : Bool) (entry : RolledBack) → EnableErr

rolled : Bool → RolledBack
rolled true = disabled
rolled false = still_enabled

-- `Result<(), _>` is the error, if there is one. The closures act on a state; `true` is `Ok(())`, or a confirmed disarm.
module _ {S : Type 0} (plugin_enable crash_arm plugin_disable crash_disarm : S → S × Bool) where
  -- The rollback of a fresh enable: both halves run.
  roll_back : S → S × Option EnableErr
  unfolding rolled
  roll_back s =
      let (s1, disarmed) = crash_disarm s in
      let (s2, removed) = plugin_disable s1 in (s2, some (recovery_step disarmed (rolled removed)))

  arm_step : Bool → S → S × Option EnableErr
  unfolding roll_back
  arm_step prior_enabled s =
      let (s1, armed) = crash_arm s in
      if armed
      then (s1, none)
      else if prior_enabled
      then (s1, some (recovery_step true kept))
      else roll_back s1

  entered_step : S × Bool → S × Option EnableErr
  unfolding arm_step
  entered_step (s, true) = arm_step false s
  entered_step (s, false) = let (s1, disarmed) = crash_disarm s in (s1, some (plugin_step disarmed))

  fresh_step : S → S × Option EnableErr
  unfolding entered_step
  fresh_step s = entered_step (plugin_enable s)

  unfoldable pub enable_transaction : Bool → S → S × Option EnableErr
  unfolding fresh_step arm_step
  enable_transaction prior_enabled s = if prior_enabled then arm_step true s else fresh_step s

-- The file, whether crash recovery is armed, and the snapshot that the closures share.
pub record World : Type 0 where
  pub file : Artifact
  pub armed : Bool
  pub snapshot : Option (Option Text)

-- What the world answers; a call that fails may leave crash recovery armed or not.
pub record ToggleEnv : Type 0 where
  -- `acquire_autostart_lock`
  pub locked : Bool
  pub desired_exists : Bool
  pub paths : Paths
  pub enable_works : Bool
  pub restore_works : Bool
  pub remove_works : Bool
  pub arm_ok : Bool
  pub armed_by_failure : Bool
  pub disarm_confirmed : Bool
  pub armed_unconfirmed : Bool

enabled_of : World → WriteResult → Option Text → Bool → World × Bool
unfolding restore
enabled_of w (file, none) prior works = (record w { file = file; snapshot = some prior }, true)
enabled_of w (file, some _) prior works = (record w { file = (restore file prior works).0 }, false)

plugin_enable_of : World → Result (Option Text) StoreErr → Text → ToggleEnv → World × Bool
unfolding enabled_of enable_write
plugin_enable_of w (err _) desired env = (w, false)
plugin_enable_of w (ok prior) desired env =
    enabled_of w (enable_write w.file desired env.enable_works) prior env.restore_works

pub plugin_enable : Text → ToggleEnv → World → World × Bool
unfolding plugin_enable_of read_raw
plugin_enable desired env w = plugin_enable_of w (read_raw w.file) desired env

pub crash_arm : ToggleEnv → World → World × Bool
crash_arm env w =
    if env.arm_ok
    then (record w { armed = true }, true)
    else (record w { armed = env.armed_by_failure }, false)

pub crash_disarm : ToggleEnv → World → World × Bool
crash_disarm env w =
    if env.disarm_confirmed
    then (record w { armed = false }, true)
    else (record w { armed = env.armed_unconfirmed }, false)

is_ok : Option StoreErr → Bool
is_ok none = true
is_ok (some _) = false

restored : World → Option (Option Text) → Bool → World × Bool
unfolding restore is_ok
restored w none works = (w, true)
restored w (some prior) works =
    let (file, failure) = restore w.file prior works in
    (record w { file = file; snapshot = none }, is_ok failure)

pub plugin_disable : ToggleEnv → World → World × Bool
unfolding restored
plugin_disable env w = restored w w.snapshot env.restore_works

-- Is there a sound entry, which must not be written again?
prior_of : StoredTarget → Artifact → Bool
unfolding platform_disabled
prior_of (healthy _ _) a = not (platform_disabled a)
prior_of (broken _) a = not (platform_disabled a)
prior_of absent a = false
prior_of unreadable_target a = false

unfoldable pub prior_enabled_of : Paths → Artifact → Bool
unfolding prior_of read_stored_target
prior_enabled_of fs a = prior_of (read_stored_target fs a none) a

pub data ToggleErr : Type 0 where
  no_lock no_target path_gone unsafe_path : ToggleErr
  not_enabled : EnableErr → ToggleErr
  not_removed disarm_unconfirmed : ToggleErr

pub enable_result : World × Option EnableErr → World × Option ToggleErr
enable_result (w, none) = (w, none)
enable_result (w, some e) = (w, some (not_enabled e))

fresh : Artifact → Bool → World
fresh file armed = record { file = file; armed = armed; snapshot = none }

turn_on : Artifact → Bool → Text → ToggleEnv → World × Option ToggleErr
unfolding enable_result fresh enable_transaction plugin_enable crash_arm plugin_disable crash_disarm
    prior_enabled_of remove_entry
turn_on file armed desired env =
    if not env.desired_exists
    then (fresh file armed, some path_gone)
    else if not (autostart_path_is_safe desired)
    then (
      (crash_disarm env (fresh (remove_entry file env.remove_works).0 armed)).0,
      some unsafe_path,
    )
    else enable_result (
        enable_transaction (plugin_enable desired env) (crash_arm env) (plugin_disable env)
          (crash_disarm env) (prior_enabled_of env.paths file) (fresh file armed))

off_result : Bool → WriteResult → ToggleEnv → World × Option ToggleErr
unfolding crash_disarm fresh
off_result armed (file, some _) env = (fresh file armed, some not_removed)
off_result armed (file, none) env =
    let (w, confirmed) = crash_disarm env (fresh file armed) in
    (w, if confirmed then none else some disarm_unconfirmed)

-- Behind the lock.
switch : Artifact → Bool → Option Text → Bool → ToggleEnv → World × Option ToggleErr
unfolding turn_on off_result
switch file armed (some desired) true env = turn_on file armed desired env
switch file armed none true env = (fresh file armed, some no_target)
switch file armed _ false env = off_result armed (remove_entry file env.remove_works) env

-- The target path, and whether to turn the switch on.
unfoldable pub set_enabled_at :
    Artifact → Bool → Option Text → Bool → ToggleEnv → World × Option ToggleErr
unfolding switch
set_enabled_at file armed desired enabled env =
    if not env.locked
    then (fresh file armed, some no_lock)
    else switch file armed desired enabled env
