-- ===== src/Desktop.antt =====
-- packages/accelerator/src-tauri/src/: the decisions of the desktop app that guard its own update,
-- its autostart entry and its crash recovery.
pub mod Autostart
pub mod Marker
