-- ===== src/Desktop/Autostart/Store.antt =====
-- packages/accelerator/src-tauri/src/autostart.rs: the `.desktop` file of Linux as a value, its readers
-- and writers, and the classification of what it starts. Paths are valid UTF-8; what the file system
-- answers to a write or a removal is an argument.
pub mod Broken
pub mod Shown
pub mod Writes
use aztec_accelerator.Prelude.{
  ℕ, Bool, true, false, not, ◌&&◌, Option, none, some, ltb, length, any, ◌==◌, ◌^◌, nat_eq, list_eq,
  if◌then◌else◌,
}
use aztec_accelerator.Prelude.Texts.{Text, codes, starts_with}
use aztec_accelerator.Prelude.Utf8.{is_utf8}
use aztec_accelerator.Prelude.Results.{Result, ok, err}
use aztec_accelerator.Desktop.Autostart.Exec.{
  ExecErr, is_control, desktop_quote, desktop_exec_program,
}
use aztec_accelerator.Desktop.Autostart.Entry.{
  EntryErr, exec_key, desktop_field, desktop_hidden, desktop_set_exec, desktop_clear_hidden,
  desktop_render_fresh,
}

abbrev pub max_artifact_bytes : ℕ
max_artifact_bytes = 2 ^ 20

abbrev pub app_name : Text
app_name = codes "Aztec Accelerator"

-- What is at the path of the `.desktop` file.
pub data Artifact : Type 0 where
  gone unreadable : Artifact
  holds : Text → Artifact

pub data StoreErr : Type 0 where
  cannot_read too_large not_utf8 no_exec_line vanished not_representable write_failed : StoreErr
  remove_failed : StoreErr
  in_entry : EntryErr → StoreErr
  in_exec : ExecErr → StoreErr

-- read_raw, over `read_bounded`
unfoldable pub read_raw : Artifact → Result (Option Text) StoreErr
unfolding is_utf8
read_raw gone = ok none
read_raw unreadable = err cannot_read
read_raw (holds t) =
    if ltb max_artifact_bytes (length t)
    then err too_large
    else if is_utf8 t
    then ok (some t)
    else err not_utf8

program_of_exec : Result Text ExecErr → Result (Option Text) StoreErr
program_of_exec (err e) = err (in_exec e)
program_of_exec (ok program) = ok (some program)

program_of_field : Result (Option Text) EntryErr → Result (Option Text) StoreErr
unfolding program_of_exec desktop_exec_program
program_of_field (err e) = err (in_entry e)
program_of_field (ok none) = err no_exec_line
program_of_field (ok (some exec)) = program_of_exec (desktop_exec_program exec)

program_of_raw : Result (Option Text) StoreErr → Result (Option Text) StoreErr
unfolding program_of_field desktop_field
program_of_raw (err e) = err e
program_of_raw (ok none) = ok none
program_of_raw (ok (some ini)) = program_of_field (desktop_field ini exec_key)

unfoldable pub read_stored_program : Artifact → Result (Option Text) StoreErr
unfolding program_of_raw read_raw
read_stored_program a = program_of_raw (read_raw a)

-- An entry that cannot be read does not say that it is hidden.
hidden_of_raw : Result (Option Text) StoreErr → Bool
unfolding desktop_hidden
hidden_of_raw (ok (some ini)) = desktop_hidden ini
hidden_of_raw _ = false

unfoldable pub platform_disabled : Artifact → Bool
unfolding hidden_of_raw read_raw
platform_disabled a = hidden_of_raw (read_raw a)

-- `Result<(), _>` of a writer, with the file behind it.
abbrev pub WriteResult : Type 0
WriteResult = Artifact × Option StoreErr

-- `write_artifact_atomic`: the text is at the path, or nothing has changed.
unfoldable pub write_artifact : Artifact → Text → Bool → WriteResult
write_artifact a t write_ok = if write_ok then (holds t, none) else (a, some write_failed)

write_rewritten : Artifact → Result Text EntryErr → Bool → WriteResult
unfolding write_artifact
write_rewritten a (err e) write_ok = (a, some (in_entry e))
write_rewritten a (ok out) write_ok = write_artifact a out write_ok

heal_quoted : Artifact → Text → Option Text → Bool → WriteResult
unfolding write_rewritten desktop_set_exec
heal_quoted a ini none write_ok = (a, some not_representable)
heal_quoted a ini (some quoted) write_ok = write_rewritten a (desktop_set_exec ini quoted) write_ok

heal_raw : Artifact → Result (Option Text) StoreErr → Text → Bool → WriteResult
unfolding heal_quoted desktop_quote
heal_raw a (err e) desired write_ok = (a, some e)
heal_raw a (ok none) desired write_ok = (a, some vanished)
heal_raw a (ok (some ini)) desired write_ok = heal_quoted a ini (desktop_quote desired) write_ok

unfoldable pub heal_write : Artifact → Text → Bool → WriteResult
unfolding heal_raw read_raw
heal_write a desired write_ok = heal_raw a (read_raw a) desired write_ok

pub shown : Result Text EntryErr → Text → Text
unfolding desktop_clear_hidden desktop_render_fresh
shown (ok rewritten) quoted = desktop_clear_hidden rewritten
shown (err _) quoted = desktop_render_fresh app_name quoted

enable_raw : Artifact → Text → Result (Option Text) StoreErr → Bool → WriteResult
unfolding shown write_artifact desktop_set_exec desktop_render_fresh
enable_raw a quoted (err e) write_ok = (a, some e)
enable_raw a quoted (ok none) write_ok =
    write_artifact a (desktop_render_fresh app_name quoted) write_ok
enable_raw a quoted (ok (some ini)) write_ok =
    write_artifact a (shown (desktop_set_exec ini quoted) quoted) write_ok

enable_quoted : Artifact → Option Text → Bool → WriteResult
unfolding enable_raw read_raw
enable_quoted a none write_ok = (a, some not_representable)
enable_quoted a (some quoted) write_ok = enable_raw a quoted (read_raw a) write_ok

unfoldable pub enable_write : Artifact → Text → Bool → WriteResult
unfolding enable_quoted desktop_quote
enable_write a desired write_ok = enable_quoted a (desktop_quote desired) write_ok

-- remove: a file that is not there is removed.
unfoldable pub remove_entry : Artifact → Bool → WriteResult
remove_entry gone remove_ok = (gone, none)
remove_entry a remove_ok = if remove_ok then (gone, none) else (a, some remove_failed)

-- restore, of what `snapshot`, which is `read_raw`, has read.
unfoldable pub restore : Artifact → Option Text → Bool → WriteResult
unfolding remove_entry write_artifact
restore a none works = remove_entry a works
restore a (some ini) works = write_artifact a ini works

pub data StoredTarget : Type 0 where
  absent : StoredTarget
  healthy : (program : Text) (points_elsewhere : Bool) → StoredTarget
  broken : (program : Text) → StoredTarget
  unreadable_target : StoredTarget

-- What the file system says of paths: `is_regular_executable`, and `canonicalize` with its fallback to
-- the path itself.
pub record Paths : Type 0 where
  pub executable : Text → Bool
  pub canonicalize : Text → Text

points_elsewhere_of : Paths → Text → Option Text → Bool
points_elsewhere_of fs program none = false
points_elsewhere_of fs program (some desired) =
    not (fs.canonicalize program == fs.canonicalize desired)

unfoldable pub classify_program : Paths → Text → Option Text → StoredTarget
unfolding points_elsewhere_of
classify_program fs program desired =
    if fs.executable program
    then healthy program (points_elsewhere_of fs program desired)
    else broken program

target_of : Paths → Result (Option Text) StoreErr → Option Text → StoredTarget
unfolding classify_program
target_of fs (err _) desired = unreadable_target
target_of fs (ok none) desired = absent
target_of fs (ok (some program)) desired = classify_program fs program desired

unfoldable pub read_stored_target : Paths → Artifact → Option Text → StoredTarget
unfolding target_of read_stored_program
read_stored_target fs a desired = target_of fs (read_stored_program a) desired

-- May a start, which the user did not ask for, point crash recovery at the running program?
pub implicit_arm_allowed : StoredTarget → Bool
implicit_arm_allowed absent = true
implicit_arm_allowed (healthy _ false) = true
implicit_arm_allowed (healthy _ true) = false
implicit_arm_allowed (broken _) = true
implicit_arm_allowed unreadable_target = false

-- autostart_path_is_safe
unfoldable pub autostart_path_is_safe : Text → Bool
autostart_path_is_safe path = starts_with path (codes "/") && not (any is_control path)
