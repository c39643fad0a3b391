-- ===== src/Desktop/Autostart/Store/Broken.antt =====
-- Which entries are broken, in packages/accelerator/src-tauri/src/autostart.rs, and what a heal writes.
use aztec_accelerator.Prelude.{
  ◌≡◌, ◌≢◌, refl, Bool, true, false, Option, none, some, [], ◌∷◌, length, any, ◌≤◌, ltb, arith,
  list_eq, nat_eq,
}
use aztec_accelerator.Prelude.Texts.{Text}
use aztec_accelerator.Prelude.Utf8.{is_utf8}
use aztec_accelerator.Prelude.Results.{Result, ok, err}
use aztec_accelerator.Desktop.Autostart.Exec.{is_control, desktop_quote, desktop_exec_program}
use aztec_accelerator.Desktop.Autostart.Exec.RoundTrip.{clean-desktop_quote}
use aztec_accelerator.Desktop.Autostart.Entry.{
  EntryErr, exec_key, desktop_field, desktop_hidden, desktop_set_exec,
}
use aztec_accelerator.Desktop.Autostart.Entry.Heal.{healed_entry}
use aztec_accelerator.Desktop.Autostart.Store.{
  Artifact, holds, StoreErr, write_failed, StoredTarget, healthy, broken, unreadable_target, Paths,
  read_raw, read_stored_program, read_stored_target, program_of_exec, program_of_field,
  program_of_raw, target_of, classify_program, points_elsewhere_of, heal_write, heal_raw,
  heal_quoted, write_rewritten, write_artifact, autostart_path_is_safe, max_artifact_bytes,
}

-- The program of a target that does not resolve.
abbrev pub broken_program : StoredTarget → Option Text
broken_program (broken p) = some p
broken_program _ = none

program_of_exec-some : (r : Result Text _) (p : Text) → program_of_exec r ≡ ok (some p) → r ≡ ok p
unfolding program_of_exec
program_of_exec-some (err e) p h = absurd (ground arith)
program_of_exec-some (ok q) p h = ground arith

program_of_field-some :
    (r : Result (Option Text) EntryErr) (p : Text)
    → program_of_field r ≡ ok (some p)
    → (x : Text) × (r ≡ ok (some x))
unfolding program_of_field
program_of_field-some (err e) p h = absurd (ground arith)
program_of_field-some (ok none) p h = absurd (ground arith)
program_of_field-some (ok (some x)) p h = (x, refl)

program_of_raw-some :
    (r : Result (Option Text) StoreErr) (p : Text)
    → program_of_raw r ≡ ok (some p)
    → (ini : Text) × (r ≡ ok (some ini)) × ((x : Text) × (desktop_field ini exec_key ≡ ok (some x)))
unfolding program_of_raw
program_of_raw-some (err e) p h = absurd (ground arith)
program_of_raw-some (ok none) p h = absurd (ground arith)
program_of_raw-some (ok (some ini)) p h =
    (ini, refl, program_of_field-some (desktop_field ini exec_key) p h)

target_of-broken :
    (fs : Paths) (r : Result (Option Text) StoreErr) (desired : Option Text) (p : Text)
    → target_of fs r desired ≡ broken p
    → r ≡ ok (some p)
unfolding target_of classify_program
target_of-broken fs (err e) desired p h = absurd (ground arith)
target_of-broken fs (ok none) desired p h = absurd (ground arith)
target_of-broken fs (ok (some q)) desired p h = ground arith

-- A broken target is read from an entry with one `Exec` line.
broken-entry :
    (fs : Paths) (a : Artifact) (desired : Option Text) (p : Text)
    → read_stored_target fs a desired ≡ broken p
    → (ini : Text) × (read_raw a ≡ ok (some ini))
      × ((x : Text) × (desktop_field ini exec_key ≡ ok (some x)))
unfolding read_stored_target read_stored_program
broken-entry fs a desired p h =
    program_of_raw-some (read_raw a) p
      (target_of-broken fs (program_of_raw (read_raw a)) desired p h)

-- The entry behind a heal: it starts the desired program, and is hidden exactly if it was.
abbrev pub Rewritten : Artifact → Text → Artifact → Type 0
Rewritten a desired a' =
    (ini q out : Text) × (read_raw a ≡ ok (some ini))
    × (a' ≡ holds out)
    × (desktop_field out exec_key ≡ ok (some q))
    × (desktop_exec_program q ≡ ok desired)
    × (desktop_hidden out ≡ desktop_hidden ini)

pub safe-quoted :
    (path : Text)
    → autostart_path_is_safe path ≡ true
    → (path ≢ []) × ((q : Text) × (desktop_quote path ≡ some q))
unfolding autostart_path_is_safe
safe-quoted [] h = absurd (ground arith)
safe-quoted (c ∷ s) h =
    let clean : any is_control (c ∷ s) ≡ false = ground arith in
    (λ e. ground (arith, e), clean-desktop_quote (c ∷ s) clean)

heal_write-form :
    (a : Artifact) (desired ini q out : Text) (write_ok : Bool)
    → read_raw a ≡ ok (some ini)
    → desktop_quote desired ≡ some q
    → desktop_set_exec ini q ≡ ok out
    → heal_write a desired write_ok ≡ write_artifact a out write_ok
unfolding heal_write heal_raw heal_quoted write_rewritten
heal_write-form a desired ini q out write_ok raw quoted set = rw (raw, quoted, set) refl

-- Healing a broken entry succeeds if the file can be written, and changes nothing if it cannot.
pub heal_write-Rewritten :
    (fs : Paths) (a : Artifact) (desired p : Text) (write_ok : Bool)
    → read_stored_target fs a (some desired) ≡ broken p
    → autostart_path_is_safe desired ≡ true
    → (write_ok ≡ true
        → ((heal_write a desired write_ok).1 ≡ none)
          × Rewritten a desired (heal_write a desired write_ok).0)
      × (write_ok ≡ false → heal_write a desired write_ok ≡ (a, some write_failed))
unfolding write_artifact
heal_write-Rewritten fs a desired p write_ok target safe =
    let (ini, raw, (x, found)) = broken-entry fs a (some desired) p target in
    let (filled, (q, quoted)) = safe-quoted desired safe in
    let (out, set, field, program, hidden) = healed_entry ini x desired found quoted filled in
    let form = heal_write-form a desired ini q out write_ok raw quoted set in
    (
      λ e. rw (form, e) (refl, (ini, q, out, raw, refl, field, program, hidden)),
      λ e. rw (form, e) refl,
    )

-- An entry that starts a program that is there is healthy.
pub holds-target :
    (fs : Paths) (out q program desired : Text)
    → length out ≤ max_artifact_bytes
    → is_utf8 out ≡ true
    → desktop_field out exec_key ≡ ok (some q)
    → desktop_exec_program q ≡ ok program
    → fs.executable program ≡ true
    → (elsewhere : Bool) × (read_stored_target fs (holds out) (some desired)
        ≡ healthy program elsewhere)
unfolding read_stored_target read_stored_program read_raw program_of_raw program_of_field
    program_of_exec target_of classify_program
holds-target fs out q program desired small utf8 field exec there =
    let fits : ltb max_artifact_bytes (length out) ≡ false = ground arith in
    (points_elsewhere_of fs program (some desired), rw (fits, utf8, field, exec, there) refl)

pub unreadable-target :
    (fs : Paths) (a : Artifact) (desired : Option Text) (e : StoreErr)
    → read_raw a ≡ err e
    → read_stored_target fs a desired ≡ unreadable_target
unfolding read_stored_target read_stored_program program_of_raw target_of
unreadable-target fs a desired e h = rw h refl
