-- ===== src/Lib.antt =====
-- The Aztec accelerator: a local service that proves for web pages with the native `bb` binary, and
-- the desktop app around it. This library models the core of packages/accelerator/core/src, and of
-- the desktop app what guards its updates and its autostart entry.
--
-- The parts. A request reaches the server (server/host.rs, server/auth.rs, server/prove.rs) and must
-- pass the loopback gate, the consent of the user (authorization.rs), and the resolution of the
-- version that it asks for (versions/version_policy.rs). The binaries of the versions are a cache from
-- which cleanup passes evict; a lease (versions/leases.rs) keeps a version from eviction while a proof
-- uses it. The desktop app (packages/accelerator/src-tauri/src) updates itself, guarded by a version
-- floor (updater_state.rs) and, on Windows, by a marker for the time in which the installer runs
-- (update_marker.rs). It owns the entry that starts it at login (autostart.rs) and switches crash
-- recovery on and off with it (crash_recovery.rs).
--
-- The files:
-- - Authorization/Origin: `canonicalize_origin`, `CanonicalOrigin` and `is_approved` of
--   authorization.rs; `Url::parse` is the parameter `UrlParser`.
-- - Authorization/Manager: `PendingState` and `AuthorizationManager` of authorization.rs, one function
--   per method, each one step of the state, since each takes the mutex once.
-- - Leases: `acquire`, `begin_evict` and the two `Drop`s of versions/leases.rs on a registry;
--   Leases/System: the registry with all live guards, and the steps of concurrent threads.
-- - Versions/Name, Versions/Retention, Versions/SizeCap, Versions/Selectable: versions/version_policy.rs,
--   the names, the eviction by count, the eviction by size, and the gate on requested versions;
--   Versions/Cleanup: its cleanup passes, over the lease registry.
-- - Updater/State: updater_state.rs, from `load_state` to `write_state`, on a disk that is a value;
--   `Faults` is what the file system answers.
-- - Server/Header: how server/host.rs and server/auth.rs read a header: its first value, where one
--   that is not readable as text counts as absent. Server/Host: `host_is_trusted` and `guard` of
--   server/host.rs; the parser of authorities is a parameter. Server/ContentLength: `reject_declared_oversize` of server/prove.rs. Server/Error:
--   `ProveError` of server.rs. Server/Auth: `authorize_origin` of server/auth.rs, as the steps before
--   and behind its wait. Server/Bind: the loop of server/bind.rs. Server/Resolve: `resolve_version`.
--   Server/Prove: the handler `prove`, as a trace of events over what its awaits answer.
-- - Desktop/Marker: update_marker.rs, `load`, `removal_decision` and `reconcile_under_lock`; the closures
--   that are injected there are answers. Desktop/Marker/Publish: `create_new` and
--   `post_create_failure_cleanup`. A transaction is one step, since its caller holds the lock.
-- - Desktop/Autostart/Exec and Desktop/Autostart/Entry: the `Exec` value and the lines of a `.desktop`
--   entry, in autostart.rs; Desktop/Autostart/RunValue: the Run value of Windows.
--   Desktop/Autostart/Store: the Linux `backend` of autostart.rs on a file that is a value, and
--   `classify_program`. Desktop/Autostart/Heal: `heal_if_broken_at`, with what another process may
--   have written between its two reads. Desktop/Autostart/Toggle: `set_enabled_at`, over
--   `enable_transaction` of crash_recovery.rs on a state, with the lock that it takes or fails on.
-- - Config: config.rs, from `probe_config_version` to `lock_mutate_save_to`, on a file that is a value.
-- - SemVer: the crate `semver` as a record of operations with the laws that the code relies on, and a
--   sample that meets them. Updater/State/Sample and
--   Desktop/Marker/Sample and Config/Sample do the same for `serde_json`.
-- - Prelude: lists, maps, sorting, texts, lines, white space and machine integers. The Tests modules run the code on
--   small inputs.
--
-- Texts are lists of bytes. A `HashMap` is an association list with one entry per key; where the
-- source iterates over one in no fixed order, the order is an argument. Clocks, fresh identifiers and
-- channels are arguments. `u64` values are native numbers with the saturation of the source written
-- out. All functions are total by structural recursion. Two are on fuel: `decimal`, which prints up to
-- twenty digits, enough for every 64-bit number, and `bind_loop`, for which an attempt for each
-- interval up to the deadline and one more are enough; the 5 seconds and 100 milliseconds of the
-- source need 51.
--
-- Not modelled: the cache layout, the downloader, the update manifest, the process that runs `bb`, the
-- Windows access control lists; of the desktop app its windows, tray, certificates and updater task,
-- the property list of macOS and the registry. Most of that is calls of libraries and of the operating
-- system. Logging, and the texts of error messages, are left out of the replies.
mod Prelude
pub mod Authorization
pub mod Config
pub mod Desktop
pub mod Leases
pub mod SemVer
pub mod Server
pub mod Updater
pub mod Versions
