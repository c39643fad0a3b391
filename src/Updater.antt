-- ===== src/Updater.antt =====
-- The self-updater of the desktop app: the version floor of
-- packages/accelerator/core/src/updater_state.rs.
pub mod State
