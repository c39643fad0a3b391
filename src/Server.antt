-- ===== src/Server.antt =====
-- packages/accelerator/core/src/server/: the loopback gate on every request, the declared body
-- length, version resolution, and the `/prove` handler.
pub mod Bind
pub mod Header
pub mod Host
pub mod ContentLength
pub mod Error
pub mod Resolve
pub mod Prove
pub mod Auth
pub mod Tests
