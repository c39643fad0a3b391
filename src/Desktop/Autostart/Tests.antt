-- ===== src/Desktop/Autostart/Tests.antt =====
-- Runs of packages/accelerator/src-tauri/src/autostart.rs: an entry of Linux for a program that is not
-- there any more, healed by a copy at another place.
use aztec_accelerator.Prelude.{
  ◌≡◌, ◌≢◌, refl, arith, Bool, true, false, none, some, [], ◌∷◌, ◌++◌, ◌==◌, nat_eq, list_eq,
  if◌then◌else◌,
}
use aztec_accelerator.Prelude.Equality.{list_beq}
use aztec_accelerator.Prelude.Lines.{newline, lines, rejoin}
use aztec_accelerator.Prelude.Texts.{Text, codes}
use aztec_accelerator.Prelude.Replace.{replace, replace_from}
use aztec_accelerator.Prelude.Results.{ok}
use aztec_accelerator.Prelude.Utf8.{is_utf8}
use aztec_accelerator.Desktop.Autostart.Exec.{desktop_exec_program, desktop_quote}
use aztec_accelerator.Desktop.Autostart.Exec.RoundTrip.{desktop_exec_program-desktop_quote}
use aztec_accelerator.Desktop.Autostart.Entry.{desktop_field, desktop_set_exec}
use aztec_accelerator.Desktop.Autostart.RunValue.{
  run_value_quote, run_value_candidates, resolve_first,
}
use aztec_accelerator.Desktop.Autostart.RunValue.{quoted_starts_only_path}
use aztec_accelerator.Desktop.Autostart.Store.{
  Artifact, gone, holds, not_utf8, healthy, Paths, read_raw, read_stored_target,
  autostart_path_is_safe,
}
use aztec_accelerator.Desktop.Autostart.Heal.{HealEnv, heal_if_broken_at}
use aztec_accelerator.Desktop.Autostart.Heal.Broken.{heal_exact, HealsExactly, may_heal, Untouched}
use aztec_accelerator.Desktop.Autostart.Heal.Converge.{heal_not_stolen}
use aztec_accelerator.Desktop.Autostart.Toggle.{
  ToggleEnv, no_lock, set_enabled_at, prior_enabled_of,
}
use aztec_accelerator.Desktop.Autostart.Toggle.Outcome.{turn_on_atomic, TurnedOn, LeftOn}
use aztec_accelerator.Desktop.Autostart.Toggle.Refused.{unreadable_not_reset}

abbrev odd_path : Text
odd_path = codes "/a$b%c"

desktop_exec_program-desktop_quote_example :
    desktop_exec_program (codes "\"/a\\$b%%c\"") ≡ ok odd_path
unfolding desktop_quote replace replace_from
desktop_exec_program-desktop_quote_example =
    desktop_exec_program-desktop_quote odd_path {q = codes "\"/a\\$b%%c\""} refl
      (λ e. ground (arith, e))

quoted_starts_only_path_example :
    let path = codes "C:\\My App\\a.exe" in
    (run_value_candidates (codes "\"C:\\My App\\a.exe\"") ≡ ok (path ∷ []))
    × (resolve_first (path ∷ []) (λ p. p == path) ≡ (if path == path then some path else none))
unfolding run_value_quote
quoted_starts_only_path_example =
    quoted_starts_only_path (codes "C:\\My App\\a.exe") {value = codes "\"C:\\My App\\a.exe\""}
      (λ p. p == codes "C:\\My App\\a.exe") refl (λ e. ground (arith, e))

abbrev here : Text
here = codes "/new/app"

abbrev old_entry : Text
old_entry = codes "[Desktop Entry]" ++ (newline ++ (codes "Exec=/old/app" ++ newline))

abbrev new_entry : Text
new_entry = codes "[Desktop Entry]" ++ (newline ++ (codes "Exec=\"/new/app\"" ++ newline))

abbrev places : Paths
places = record { executable = λ p. p == here; canonicalize = λ p. p }

abbrev calm : HealEnv
calm = record {
  desired_exists = true;
  first_read = holds old_entry;
  updater_lock = true;
  autostart_lock = true;
  paths = places;
  write_ok = true;
}

heal_exact_example :
    HealsExactly
      (holds old_entry)
      here
      (may_heal (holds old_entry) here calm)
      (heal_if_broken_at (holds old_entry) here calm)
heal_exact_example = heal_exact (holds old_entry) here calm

heal_not_stolen_example :
    Untouched (holds new_entry) (heal_if_broken_at (holds new_entry) (codes "/copy/app") calm)
    × ((elsewhere : Bool) × (read_stored_target places (holds new_entry) (some (codes "/copy/app"))
          ≡ healthy here elsewhere))
unfolding heal_if_broken_at read_stored_target autostart_path_is_safe read_raw desktop_quote
    desktop_set_exec desktop_field list_beq lines rejoin is_utf8
heal_not_stolen_example =
    heal_not_stolen (holds old_entry) here (codes "/copy/app") new_entry calm calm refl refl
      (omega arith) refl refl

abbrev usual : ToggleEnv
usual = record {
  locked = true;
  desired_exists = true;
  paths = places;
  enable_works = true;
  restore_works = true;
  remove_works = true;
  arm_ok = false;
  armed_by_failure = true;
  disarm_confirmed = true;
  armed_unconfirmed = true;
}

turn_on_atomic_example :
    (usual.locked ≡ false
      → set_enabled_at gone false (some here) true usual
        ≡ (record { file = gone; armed = false; snapshot = none }, some no_lock))
    × (usual.locked ≡ true
        → prior_enabled_of places gone ≡ false
        → TurnedOn gone here usual (set_enabled_at gone false (some here) true usual))
    × (usual.locked ≡ true
        → prior_enabled_of places gone ≡ true
        → LeftOn gone (set_enabled_at gone false (some here) true usual))
unfolding autostart_path_is_safe
turn_on_atomic_example = turn_on_atomic gone false here usual refl refl refl

abbrev latin : Artifact
latin = holds (codes "[Desktop Entry]" ++ (newline ++ (codes "Exec=/caf" ++ (233 ∷ newline))))

unreadable_not_reset_example :
    let (w, failure) = set_enabled_at latin false (some here) true usual in
    (failure ≢ none) × (w.file ≡ latin)
unfolding autostart_path_is_safe read_raw is_utf8
unreadable_not_reset_example = unreadable_not_reset latin false here usual not_utf8 refl refl refl
