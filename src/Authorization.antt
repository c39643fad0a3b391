-- ===== src/Authorization.antt =====
-- packages/accelerator/core/src/authorization.rs: origins, the pending consent requests behind the
-- popups, and the post-deny cooldown.
pub mod Origin
pub mod Manager
