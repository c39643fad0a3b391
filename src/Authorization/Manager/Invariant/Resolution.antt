-- ===== src/Authorization/Manager/Invariant/Resolution.antt =====
-- The resolutions of packages/accelerator/core/src/authorization.rs keep the invariant.
use aztec_accelerator.Prelude.{ℕ, inl, inr, Option, none, some, nat_eq, list_eq, Bool-cases}
use aztec_accelerator.Prelude.Texts.{Text}
use aztec_accelerator.Authorization.Manager.{
  AuthDecision, PendingRequest, PendingState, remove_request, is_active, resolve, resolve_active,
  resolve_removed, resolve_active_removed,
}
use aztec_accelerator.Authorization.Manager.Invariant.{Inv}
use aztec_accelerator.Authorization.Manager.Invariant.Removal.{remove_request-Inv}
use aztec_accelerator.Authorization.Manager.Invariant.Cooldowns.{settle-Inv}

removed_resolved :
    (r : PendingState × Option (PendingRequest × Option Text)) (decision : AuthDecision) (now : ℕ)
    → Inv r.0
    → Inv (resolve_removed r decision now).0
unfolding resolve_removed
removed_resolved (st, none) decision now h = h
removed_resolved (st, some (req, promoted)) decision now h = settle-Inv decision st req.origin now h

removed_resolved_active :
    (r : PendingState × Option (PendingRequest × Option Text)) (decision : AuthDecision) (now : ℕ)
    → Inv r.0
    → Inv (resolve_active_removed r decision now).0
unfolding resolve_active_removed
removed_resolved_active (st, none) decision now h = h
removed_resolved_active (st, some (req, promoted)) decision now h =
    settle-Inv decision st req.origin now h

-- Both ways to resolve a request keep the invariant, whatever the identifier and the decision.
pub resolve-Inv :
    (st : PendingState) (id : Text) (decision : AuthDecision) (now : ℕ)
    → Inv st
    → Inv (resolve st id decision now).0 × Inv (resolve_active st id decision now).0
unfolding resolve resolve_active
resolve-Inv st id decision now h =
    let removed = remove_request-Inv st id h in
    (
      removed_resolved (remove_request st id) decision now removed,
      elim (Bool-cases (is_active st id)) [
        | inl e ↦ rw e (removed_resolved_active (remove_request st id) decision now removed)
        | inr e ↦ rw e h
      ],
    )
