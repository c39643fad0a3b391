-- ===== src/Desktop/Autostart/Heal/Broken.antt =====
-- Which entries the heal of packages/accelerator/src-tauri/src/autostart.rs rewrites, and how.
use aztec_accelerator.Prelude.{
  ◌≡◌, ◌≢◌, inl, inr, refl, Bool, true, false, not, ◌&&◌, Option, none, some, is_some,
  if◌then◌else◌, Bool-cases, arith, list_eq, nat_eq,
}
use aztec_accelerator.Prelude.Texts.{Text}
use aztec_accelerator.Desktop.Autostart.Store.{
  Artifact, StoreErr, StoredTarget, absent, healthy, broken, unreadable_target, read_stored_target,
  heal_write, autostart_path_is_safe, write_failed,
}
use aztec_accelerator.Desktop.Autostart.Heal.{
  HealOutcome, SkipReason, FailReason, own_path_unresolvable, artifact_unreadable, updater_active,
  unsafe_path, lock_timeout, heal_failed, not_needed, healed, skipped, failed, HealEnv,
  heal_if_broken_at, heal_first, heal_locked, written_outcome,
}
use aztec_accelerator.Desktop.Autostart.Store.Broken.{
  broken_program, Rewritten, heal_write-Rewritten,
}

-- The heal has rewritten the entry.
abbrev pub Heals : Artifact → Text → HealOutcome × Artifact → Type 0
Heals a desired (outcome, a') = ((p : Text) × (outcome ≡ healed p desired)) × Rewritten a desired a'

-- It has touched nothing, and does not say that it healed.
abbrev pub Untouched : Artifact → HealOutcome × Artifact → Type 0
Untouched a (outcome, a') = (a' ≡ a) × ((from to : Text) → outcome ≢ healed from to)

-- When a heal writes: the entry is broken at both looks, and nothing stands in the way.
abbrev pub may_heal : Artifact → Text → HealEnv → Bool
may_heal a desired env =
    env.desired_exists
    && (autostart_path_is_safe desired
        && (is_some (broken_program (read_stored_target env.paths env.first_read (some desired)))
            && (env.updater_lock
                && (env.autostart_lock
                    && (is_some (broken_program (read_stored_target env.paths a (some desired)))
                        && env.write_ok)))))

written-Heals :
    (a : Artifact) (desired p : Text) (w : Artifact × Option StoreErr)
    → (w.1 ≡ none) × Rewritten a desired w.0
    → Heals a desired (written_outcome w p desired)
unfolding written_outcome
written-Heals a desired p (a', none) (done, form) = ((p, refl), form)
written-Heals a desired p (a', some e) (done, form) = absurd (ground arith)

-- Where the test holds it heals, elsewhere it leaves all as it is.
abbrev pub HealsExactly : Artifact → Text → Bool → HealOutcome × Artifact → Type 0
HealsExactly a desired go result =
    (go ≡ true → Heals a desired result) × (go ≡ false → Untouched a result)

-- A way out that touches nothing.
stays-HealsExactly :
    (a : Artifact) (desired : Text) (outcome : HealOutcome)
    → ((from to : Text) → outcome ≢ healed from to)
    → HealsExactly a desired false (outcome, a)
stays-HealsExactly a desired outcome other = (λ h. absurd (ground (arith, h)), λ h. (refl, other))

-- A guard in front.
guard-HealsExactly :
    (a : Artifact) (desired : Text) (b go : Bool) (outcome : HealOutcome)
    (result : HealOutcome × Artifact)
    → ((from to : Text) → outcome ≢ healed from to)
    → HealsExactly a desired go result
    → HealsExactly a desired (b && go) (if not b then (outcome, a) else result)
guard-HealsExactly a desired true go outcome result other exact = exact
guard-HealsExactly a desired false go outcome result other exact =
    stays-HealsExactly a desired outcome other

not_needed-other : (from to : Text) → not_needed ≢ healed from to
not_needed-other from to e = ground (arith, e)

skipped-other : (reason : SkipReason) (from to : Text) → skipped reason ≢ healed from to
skipped-other reason from to e = ground (arith, e)

failed-other : (reason : FailReason) (from to : Text) → failed reason ≢ healed from to
failed-other reason from to e = ground (arith, e)

heal_locked-HealsExactly :
    (a : Artifact) (desired : Text) (env : HealEnv) (t : StoredTarget)
    → read_stored_target env.paths a (some desired) ≡ t
    → autostart_path_is_safe desired ≡ true
    → HealsExactly a desired
        (is_some (broken_program t) && env.write_ok)
        (heal_locked t a desired env)
unfolding heal_locked written_outcome
heal_locked-HealsExactly a desired env absent same safe =
    stays-HealsExactly a desired not_needed not_needed-other
heal_locked-HealsExactly a desired env (healthy p e) same safe =
    stays-HealsExactly a desired not_needed not_needed-other
heal_locked-HealsExactly a desired env unreadable_target same safe =
    stays-HealsExactly a desired (skipped artifact_unreadable) (skipped-other artifact_unreadable)
heal_locked-HealsExactly a desired env (broken p) same safe =
    let (writes, fails) = heal_write-Rewritten env.paths a desired p env.write_ok same safe in
    (
      λ h. written-Heals a desired p (heal_write a desired env.write_ok) (writes h),
      λ h. rw (fails h) (refl, failed-other (heal_failed write_failed)),
    )

heal_first-HealsExactly :
    (a : Artifact) (desired : Text) (env : HealEnv) (t : StoredTarget)
    → autostart_path_is_safe desired ≡ true
    → HealsExactly a desired
        (is_some (broken_program t)
          && (env.updater_lock
              && (env.autostart_lock
                  && (is_some (broken_program (read_stored_target env.paths a (some desired)))
                      && env.write_ok))))
        (heal_first t a desired env)
unfolding heal_first
heal_first-HealsExactly a desired env absent safe =
    stays-HealsExactly a desired not_needed not_needed-other
heal_first-HealsExactly a desired env (healthy p e) safe =
    stays-HealsExactly a desired not_needed not_needed-other
heal_first-HealsExactly a desired env unreadable_target safe =
    stays-HealsExactly a desired (skipped artifact_unreadable) (skipped-other artifact_unreadable)
heal_first-HealsExactly a desired env (broken p) safe =
    guard-HealsExactly a desired env.updater_lock _ (skipped updater_active) _
      (skipped-other updater_active)
      (guard-HealsExactly a desired env.autostart_lock _ (failed lock_timeout) _
        (failed-other lock_timeout)
        (heal_locked-HealsExactly a desired env (read_stored_target env.paths a (some desired)) refl
          safe))

-- A heal rewrites an entry exactly if the own path exists and is safe, the entry is broken at both
-- looks, no update runs, the lock is free and the file can be written. Then the entry starts the own
-- path and is hidden exactly if it was; otherwise nothing is touched. So a healthy, an absent or an
-- unreadable entry is never written.
pub heal_exact :
    (a : Artifact) (desired : Text) (env : HealEnv)
    → HealsExactly a desired (may_heal a desired env) (heal_if_broken_at a desired env)
unfolding heal_if_broken_at
heal_exact a desired env =
    guard-HealsExactly a desired env.desired_exists _ (skipped own_path_unresolvable) _
      (skipped-other own_path_unresolvable)
      (elim (Bool-cases (autostart_path_is_safe desired)) [
        | inl safe ↦
            guard-HealsExactly a desired (autostart_path_is_safe desired) _ (failed unsafe_path) _
              (failed-other unsafe_path)
              (heal_first-HealsExactly a desired env
                (read_stored_target env.paths env.first_read (some desired)) safe)
        | inr bad ↦
            rw bad (stays-HealsExactly a desired (failed unsafe_path) (failed-other unsafe_path))
      ])
