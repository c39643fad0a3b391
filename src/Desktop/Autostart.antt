-- ===== src/Desktop/Autostart.antt =====
-- packages/accelerator/src-tauri/src/autostart.rs: the entry that starts the program at login.
pub mod Exec
pub mod Entry
pub mod RunValue
pub mod Store
pub mod Heal
pub mod Toggle
pub mod Tests
