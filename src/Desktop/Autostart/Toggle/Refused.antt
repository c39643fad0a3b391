-- ===== src/Desktop/Autostart/Toggle/Refused.antt =====
-- The switch of packages/accelerator/src-tauri/src/autostart.rs on an entry that cannot be read, and turned
-- off.
use aztec_accelerator.Prelude.{
  ◌≡◌, ◌≢◌, inl, inr, refl, sym, subst, ap, ◌∙◌, Bool, true, false, not, Option, none, some,
  Bool-cases, arith,
}
use aztec_accelerator.Prelude.Tests.{if-false}
use aztec_accelerator.Prelude.Texts.{Text}
use aztec_accelerator.Prelude.Results.{err}
use aztec_accelerator.Desktop.Autostart.Store.{
  Artifact, gone, unreadable, holds, StoreErr, read_raw, remove_entry, autostart_path_is_safe,
}
use aztec_accelerator.Desktop.Autostart.Store.Broken.{unreadable-target}
use aztec_accelerator.Desktop.Autostart.Toggle.{
  World, ToggleEnv, ToggleErr, not_removed, switch, set_enabled_at, prior_of, prior_enabled_of,
  enable_transaction, entered_step, fresh_step, plugin_enable_of, plugin_enable, crash_arm,
  crash_disarm, plugin_disable, enable_result, fresh, off_result,
}
use aztec_accelerator.Desktop.Autostart.Toggle.Outcome.{turn_on-form, no_lock-form}

prior-unreadable :
    (file : Artifact) (env : ToggleEnv) (e : StoreErr)
    → read_raw file ≡ err e
    → prior_enabled_of env.paths file ≡ false
unfolding prior_enabled_of prior_of
prior-unreadable file env e h =
    ap (λ t. prior_of t file) (unreadable-target env.paths file none e h)

abbrev Refused : Artifact → World × Option ToggleErr → Type 0
Refused file (w, failure) = (failure ≢ none) × (w.file ≡ file)

fresh-Refused :
    (w : World) (path : Text) (env : ToggleEnv) (e : StoreErr)
    → Refused w.file (
        enable_result (
          entered_step
            (plugin_enable path env)
            (crash_arm env)
            (plugin_disable env)
            (crash_disarm env)
            (plugin_enable_of w (err e) path env)))
unfolding entered_step plugin_enable_of enable_result crash_disarm
fresh-Refused w path env e = elim (Bool-cases env.disarm_confirmed) [
  | inl confirmed ↦ rw confirmed (λ h. ground (arith, h), refl)
  | inr unsure ↦ rw unsure (λ h. ground (arith, h), refl)
]

unreadable_held :
    (file : Artifact) (armed : Bool) (path : Text) (env : ToggleEnv) (e : StoreErr)
    → read_raw file ≡ err e
    → env.locked ≡ true
    → env.desired_exists ≡ true
    → autostart_path_is_safe path ≡ true
    → Refused file (set_enabled_at file armed (some path) true env)
unfolding enable_transaction fresh_step plugin_enable
unreadable_held file armed path env e bad held there safe =
    let w : World = record { file = file; armed = armed; snapshot = none } in
    let step : World × Option ToggleErr → Type 0 = Refused file in
    let form =
      turn_on-form file armed path env held there safe
      ∙ ap enable_result
          (if-false (prior_enabled_of env.paths file) _ _ (prior-unreadable file env e bad))
      ∙ ap
          (λ r. enable_result (
            entered_step (plugin_enable path env) (crash_arm env) (plugin_disable env)
              (crash_disarm env) (plugin_enable_of w r path env)))
          bad in
    subst step (sym form) (fresh-Refused w path env e)

-- An entry that cannot be read, for instance since it is not UTF-8, is not reset by turning autostart
-- on for an own path that exists and is safe: the switch fails, and the file stays as it is, whether
-- or not the lock is granted.
pub unreadable_not_reset :
    (file : Artifact) (armed : Bool) (path : Text) (env : ToggleEnv) (e : StoreErr)
    → read_raw file ≡ err e
    → env.desired_exists ≡ true
    → autostart_path_is_safe path ≡ true
    → let (w, failure) = set_enabled_at file armed (some path) true env in
      (failure ≢ none) × (w.file ≡ file)
unreadable_not_reset file armed path env e bad there safe = elim (Bool-cases env.locked) [
  | inl held ↦ unreadable_held file armed path env e bad held there safe
  | inr busy ↦
      subst (Refused file) (sym (no_lock-form file armed true (some path) env busy))
        (λ h. ground (arith, h), refl)
]

remove_entry-cases :
    (file : Artifact) (works : Bool)
    → ((remove_entry file works).1 ≡ none → (remove_entry file works).0 ≡ gone)
      × ((remove_entry file works).1 ≢ none → (remove_entry file works).0 ≡ file)
unfolding remove_entry
remove_entry-cases gone works = (λ h. refl, λ h. refl)
remove_entry-cases unreadable true = (λ h. refl, λ h. absurd (h refl))
remove_entry-cases unreadable false = (λ h. absurd (ground (arith, h)), λ h. refl)
remove_entry-cases (holds t) true = (λ h. refl, λ h. absurd (h refl))
remove_entry-cases (holds t) false = (λ h. absurd (ground (arith, h)), λ h. refl)

abbrev TurnedOff : Artifact → Bool → World × Option ToggleErr → Type 0
TurnedOff file armed (w, failure) =
    (failure ≡ none → (w.file ≡ gone) × (w.armed ≡ false))
    × (failure ≡ some not_removed → (w.file ≡ file) × (w.armed ≡ armed))
    × (failure ≢ none → failure ≢ some not_removed → w.file ≡ gone)

off_result-TurnedOff :
    (file : Artifact) (armed : Bool) (now : Artifact) (failed : Option StoreErr) (env : ToggleEnv)
    → (failed ≡ none → now ≡ gone)
    → (failed ≢ none → now ≡ file)
    → TurnedOff file armed (off_result armed (now, failed) env)
unfolding off_result crash_disarm fresh
off_result-TurnedOff file armed now (some e) env removed stayed = (
  λ h. absurd (ground (arith, h)),
  λ h. (stayed (λ c. absurd (ground (arith, c))), refl),
  λ h other. absurd (other refl),
)
off_result-TurnedOff file armed now none env removed stayed =
    elim (Bool-cases env.disarm_confirmed) [
      | inl confirmed ↦
          rw confirmed
            (λ h. (removed refl, refl), λ h. absurd (ground (arith, h)), λ h other. removed refl)
      | inr unsure ↦ rw unsure (
        λ h. absurd (ground (arith, h)),
        λ h. absurd (ground (arith, h)),
        λ h other. removed refl,
      )
    ]

turn_off_held :
    (file : Artifact) (armed : Bool) (desired : Option Text) (env : ToggleEnv)
    → env.locked ≡ true
    → TurnedOff file armed (set_enabled_at file armed desired false env)
unfolding set_enabled_at switch
turn_off_held file armed desired env held =
    let (removed, stayed) = remove_entry-cases file env.remove_works in
    let (now, failed) = remove_entry file env.remove_works in
    subst (TurnedOff file armed) (sym (if-false (not env.locked) _ _ (ap not held)))
      (off_result-TurnedOff file armed now failed env removed stayed)

-- Turning autostart off, once the lock is held: if it succeeds the entry is gone and crash recovery is
-- off; if the entry could not be removed nothing has changed, crash recovery included; and if only the
-- disarm is unconfirmed the entry is gone all the same.
pub turn_off_outcome :
    (file : Artifact) (armed : Bool) (desired : Option Text) (env : ToggleEnv)
    → env.locked ≡ true
    → let (w, failure) = set_enabled_at file armed desired false env in
      (failure ≡ none → (w.file ≡ gone) × (w.armed ≡ false))
      × (failure ≡ some not_removed → (w.file ≡ file) × (w.armed ≡ armed))
      × (failure ≢ none → failure ≢ some not_removed → w.file ≡ gone)
turn_off_outcome file armed desired env held = turn_off_held file armed desired env held
