-- ===== src/Desktop/Autostart/Heal.antt =====
-- packages/accelerator/src-tauri/src/autostart.rs: the heal on Linux. The file is read once without the
-- lock and again under it, and another process may write it in between; the rest is one step.
pub mod Broken
pub mod Converge
use aztec_accelerator.Prelude.{Bool, not, Option, none, some, if◌then◌else◌}
use aztec_accelerator.Prelude.Texts.{Text}
use aztec_accelerator.Desktop.Autostart.Store.{
  Artifact, StoreErr, StoredTarget, absent, healthy, broken, unreadable_target, Paths,
  read_stored_target, heal_write, autostart_path_is_safe,
}

pub data SkipReason : Type 0 where
  own_path_unresolvable artifact_unreadable updater_active : SkipReason

pub data FailReason : Type 0 where
  unsafe_path lock_timeout : FailReason
  heal_failed : StoreErr → FailReason

-- The paths of `Healed` are those that it redacts for the log.
pub data HealOutcome : Type 0 where
  not_needed : HealOutcome
  healed : (from to : Text) → HealOutcome
  skipped : SkipReason → HealOutcome
  failed : FailReason → HealOutcome

-- What the world answers to one heal.
pub record HealEnv : Type 0 where
  pub desired_exists : Bool
  pub first_read : Artifact
  pub updater_lock : Bool
  pub autostart_lock : Bool
  pub paths : Paths
  pub write_ok : Bool

written_outcome : Artifact × Option StoreErr → Text → Text → HealOutcome × Artifact
written_outcome (a, some e) from to = (failed (heal_failed e), a)
written_outcome (a, none) from to = (healed from to, a)

heal_locked : StoredTarget → Artifact → Text → HealEnv → HealOutcome × Artifact
unfolding written_outcome heal_write
heal_locked (broken program) a desired env =
    written_outcome (heal_write a desired env.write_ok) program desired
heal_locked unreadable_target a desired env = (skipped artifact_unreadable, a)
heal_locked absent a desired env = (not_needed, a)
heal_locked (healthy _ _) a desired env = (not_needed, a)

heal_first : StoredTarget → Artifact → Text → HealEnv → HealOutcome × Artifact
unfolding heal_locked read_stored_target
heal_first (broken _) a desired env =
    if not env.updater_lock
    then (skipped updater_active, a)
    else if not env.autostart_lock
    then (failed lock_timeout, a)
    else heal_locked (read_stored_target env.paths a (some desired)) a desired env
heal_first unreadable_target a desired env = (skipped artifact_unreadable, a)
heal_first absent a desired env = (not_needed, a)
heal_first (healthy _ _) a desired env = (not_needed, a)

-- The file is the one under the lock.
unfoldable pub heal_if_broken_at : Artifact → Text → HealEnv → HealOutcome × Artifact
unfolding heal_first read_stored_target
heal_if_broken_at a desired env =
    if not env.desired_exists
    then (skipped own_path_unresolvable, a)
    else if not (autostart_path_is_safe desired)
    then (failed unsafe_path, a)
    else heal_first (read_stored_target env.paths env.first_read (some desired)) a desired env
