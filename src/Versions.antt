-- ===== src/Versions.antt =====
-- packages/accelerator/core/src/versions/: version names, the retention policy of the cache of `bb`
-- binaries, the gate on versions that a remote page asks for, and the cleanup passes.
pub mod Name
pub mod Retention
pub mod SizeCap
pub mod Selectable
pub mod Cleanup
pub mod Tests
