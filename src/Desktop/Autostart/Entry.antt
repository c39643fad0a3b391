-- ===== src/Desktop/Autostart/Entry.antt =====
-- packages/accelerator/src-tauri/src/autostart.rs: the fields of a `.desktop` entry, read and rewritten
-- line by line.
pub mod Fields
pub mod Rewrite
pub mod Clear
pub mod Heal
use aztec_accelerator.Prelude.{
  Bool, true, false, not, ◌&&◌, ◌||◌, Option, none, some, is_some, List, [], ◌∷◌, ◌++◌, length,
  drop, map, ◌==◌, nat_eq, list_eq, if◌then◌else◌,
}
use aztec_accelerator.Prelude.Texts.{Text, codes, starts_with}
use aztec_accelerator.Prelude.Utf8.{trim, trim_start}
use aztec_accelerator.Prelude.Lines.{lines, rejoin, newline}
use aztec_accelerator.Prelude.Results.{Result, ok, err}

abbrev pub entry_header : Text
entry_header = codes "[Desktop Entry]"

-- `strip_prefix`
abbrev strip_prefix : Text → Text → Option Text
strip_prefix s prefix = if starts_with s prefix then some (drop (length prefix) s) else none

value_of_rest : Option Text → Option Text
unfolding trim_start
value_of_rest none = none
value_of_rest (some rest) = strip_prefix (trim_start rest) (codes "=")

-- What a trimmed line gives the key: the text behind its equals sign.
pub key_value : Text → Text → Option Text
unfolding value_of_rest
key_value trimmed key = value_of_rest (strip_prefix trimmed key)

-- `is_key_line`
is_key_line : Text → Text → Bool
unfolding key_value
is_key_line trimmed key = is_some (key_value trimmed key)

abbrev pub opens_group : Text → Bool
opens_group trimmed = starts_with trimmed (codes "[")

abbrev pub is_comment : Text → Bool
is_comment trimmed = starts_with trimmed (codes "#")

-- Does the line stand in the `[Desktop Entry]` group?
abbrev pub entry_after : Bool → Text → Bool
entry_after in_entry trimmed = if opens_group trimmed then trimmed == entry_header else in_entry

pub data EntryErr : Type 0 where
  duplicate_field no_exec_line : EntryErr

-- What the loop of `desktop_field` keeps: is it in the group, and what has it found?
abbrev pub Seen : Type 0
Seen = Result (Bool × Option Text) EntryErr

with_value : Bool → Option Text → Option Text → Seen
unfolding trim_start
with_value in_entry found none = ok (in_entry, found)
with_value in_entry none (some value) = ok (in_entry, some (trim_start value))
with_value in_entry (some _) (some value) = err duplicate_field

-- One round of the loop, on a trimmed line.
unfoldable pub field_step : Text → Bool → Option Text → Text → Seen
unfolding with_value key_value
field_step key in_entry found trimmed =
    if opens_group trimmed
    then ok (trimmed == entry_header, found)
    else if not in_entry || is_comment trimmed
    then ok (in_entry, found)
    else with_value in_entry found (key_value trimmed key)

unfoldable pub and_then :
    Seen → (Bool → Option Text → Result (Option Text) EntryErr) → Result (Option Text) EntryErr
and_then (err e) rest = err e
and_then (ok (in_entry, found)) rest = rest in_entry found

unfoldable pub field_loop : Text → Bool → Option Text → List Text → Result (Option Text) EntryErr
unfolding field_step and_then
field_loop key in_entry found [] = ok found
field_loop key in_entry found (trimmed ∷ ls) =
    and_then (field_step key in_entry found trimmed) (λ b f. field_loop key b f ls)

unfoldable pub desktop_field : Text → Text → Result (Option Text) EntryErr
unfolding field_loop
desktop_field ini key = field_loop key false none (map trim (lines ini))

unfoldable pub hidden_value : Result (Option Text) EntryErr → Bool
hidden_value (ok (some v)) = trim v == codes "true"
hidden_value _ = false

unfoldable pub desktop_hidden : Text → Bool
unfolding hidden_value desktop_field
desktop_hidden ini = hidden_value (desktop_field ini (codes "Hidden"))

abbrev pub exec_key : Text
exec_key = codes "Exec"

abbrev pub hidden_key : Text
hidden_key = codes "Hidden"

-- Is this a line of the group that gives the key?
pub gives : Text → Bool → Text → Bool
unfolding is_key_line
gives key in_entry trimmed = in_entry && (not (is_comment trimmed) && is_key_line trimmed key)

-- The loop of `desktop_set_exec`: the first `Exec` line of the group is replaced.
pub set_loop : Text → Bool → Bool → List Text → List Text
unfolding gives
set_loop value in_entry replaced [] = []
set_loop value in_entry replaced (line ∷ ls) =
    let trimmed = trim line in
    let inside = entry_after in_entry trimmed in
    let here = not replaced && gives exec_key inside trimmed in
    let rest = set_loop value inside (replaced || here) ls in
    if here then (codes "Exec=" ++ value) ∷ rest else line ∷ rest

unfoldable pub set_exec_of : Result (Option Text) EntryErr → Text → Text → Result Text EntryErr
unfolding set_loop
set_exec_of (err e) ini value = err e
set_exec_of (ok none) ini value = err no_exec_line
set_exec_of (ok (some _)) ini value = ok (rejoin ini (set_loop value false false (lines ini)))

unfoldable pub desktop_set_exec : Text → Text → Result Text EntryErr
unfolding set_exec_of desktop_field
desktop_set_exec ini value = set_exec_of (desktop_field ini exec_key) ini value

-- The loop of `desktop_clear_hidden`.
pub clear_loop : Bool → List Text → List Text
unfolding is_key_line
clear_loop in_entry [] = []
clear_loop in_entry (line ∷ ls) =
    let trimmed = trim line in
    let inside = entry_after in_entry trimmed in
    let rest = clear_loop inside ls in
    if inside && is_key_line trimmed hidden_key then rest else line ∷ rest

unfoldable pub desktop_clear_hidden : Text → Text
unfolding clear_loop
desktop_clear_hidden ini = rejoin ini (clear_loop false (lines ini))

unfoldable pub desktop_render_fresh : Text → Text → Text
desktop_render_fresh app_name quoted_exec =
    (entry_header ++ newline)
    ++ ((codes "Type=Application" ++ newline)
        ++ ((codes "Version=1.0" ++ newline)
            ++ ((codes "Name=" ++ (app_name ++ newline))
                ++ ((codes "Comment=" ++ (app_name ++ (codes " startup script" ++ newline)))
                    ++ (codes "Exec="
                        ++ (quoted_exec
                            ++ (newline
                                ++ ((codes "StartupNotify=false" ++ newline)
                                    ++ (codes "Terminal=false" ++ newline)))))))))
