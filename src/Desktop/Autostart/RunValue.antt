-- ===== src/Desktop/Autostart/RunValue.antt =====
-- packages/accelerator/src-tauri/src/autostart.rs: the Run value of Windows, and the programs that the
-- system tries for it.
use aztec_accelerator.Prelude.{
  ℕ, ◌≡◌, ◌≢◌, inl, inr, refl, sym, ap, ◌∙◌, Bool, true, false, not, ◌&&◌, ◌||◌, Option, none, some,
  List, [], ◌∷◌, ◌++◌, map, ltb, any, contains, ◌==◌, ◌%◌, nat_eq, list_eq, if◌then◌else◌,
  Bool-cases, arith, reverse,
}
use aztec_accelerator.Prelude.Equality.{list_beq}
use aztec_accelerator.Prelude.Texts.{Text, codes, split_once}
use aztec_accelerator.Prelude.Utf8.{trim, trim_end, trim_end-solid}
use aztec_accelerator.Prelude.Results.{Result, ok, err}

pub data RunErr : Type 0 where
  empty_value unterminated_quote trailing_arguments empty_quoted : RunErr

abbrev pub quote_mark : ℕ
quote_mark = b'"'

-- A byte below 0x20, or 0x7f.
abbrev pub is_control : ℕ → Bool
is_control c = ltb c 32 || c == 127

unfoldable pub run_value_quote : Text → Option Text
run_value_quote path =
    if contains quote_mark path || any is_control path
    then none
    else some (quote_mark ∷ (path ++ quote_mark ∷ []))

-- The last part between separators: from the end back to the first of them.
last_component : Text → Text → Text
last_component part [] = part
last_component part (c ∷ s) = if c == b'\\' || c == b'/' then part else last_component (c ∷ part) s

append_exe_if_extensionless : Text → Text
unfolding last_component
append_exe_if_extensionless p =
    if contains b'.' (last_component [] (reverse p)) then p else p ++ codes ".exe"

-- What stands before each space, the shorter first; the bytes before the rest come in reverse.
space_prefixes : Text → Text → List Text
space_prefixes before [] = []
space_prefixes before (c ∷ s) =
    let rest = space_prefixes (c ∷ before) s in
    if c == b' ' && not (before == []) then reverse before ∷ rest else rest

quoted_candidates : Option (Text × Text) → Result (List Text) RunErr
unfolding trim
quoted_candidates none = err unterminated_quote
quoted_candidates (some (program, rest)) =
    if not (trim rest == [])
    then err trailing_arguments
    else if program == []
    then err empty_quoted
    else ok (program ∷ [])

candidates_of : Text → Result (List Text) RunErr
unfolding quoted_candidates append_exe_if_extensionless space_prefixes split_once
candidates_of [] = err empty_value
candidates_of (c ∷ s) =
    if c == quote_mark
    then quoted_candidates (split_once quote_mark s)
    else ok (
        map append_exe_if_extensionless (space_prefixes [] (c ∷ s))
        ++ append_exe_if_extensionless (c ∷ s) ∷ [])

unfoldable pub run_value_candidates : Text → Result (List Text) RunErr
unfolding candidates_of trim_end
run_value_candidates value = candidates_of (trim_end value)

-- The first candidate that there is.
unfoldable pub resolve_first : List Text → (Text → Bool) → Option Text
resolve_first [] exists = none
resolve_first (c ∷ cs) exists =
    let rest = resolve_first cs exists in if exists c then some c else rest

-- `StartupApproved`: the first byte is a flag.
pub startup_approved_blob_enabled : Option Text → Bool
startup_approved_blob_enabled none = true
startup_approved_blob_enabled (some []) = true
startup_approved_blob_enabled (some (flag ∷ _)) = flag % 2 == 0

split_once-quoted :
    (path : Text)
    → contains quote_mark path ≡ false
    → split_once quote_mark (path ++ quote_mark ∷ []) ≡ some (path, [])
unfolding split_once
split_once-quoted [] h = refl
split_once-quoted (c ∷ s) h = ground (arith, split_once-quoted s)

candidates-quoted :
    (path : Text)
    → contains quote_mark path ≡ false
    → path ≢ []
    → candidates_of (quote_mark ∷ (path ++ quote_mark ∷ [])) ≡ ok (path ∷ [])
unfolding candidates_of quoted_candidates list_beq trim
candidates-quoted [] h filled = absurd (filled refl)
candidates-quoted (c ∷ s) h filled = rw (split_once-quoted (c ∷ s) h) refl

-- A quoted Run value starts the program at the path and nothing else: it is the only candidate, so no
-- program at a prefix of the path, which a user may be able to put there, is ever started.
pub quoted_starts_only_path :
    (path : Text) {value : Text} (exists : Text → Bool)
    → run_value_quote path ≡ some value
    → path ≢ []
    → (run_value_candidates value ≡ ok (path ∷ []))
      × (resolve_first (path ∷ []) exists ≡ (if exists path then some path else none))
unfolding run_value_quote run_value_candidates resolve_first
quoted_starts_only_path path {value} exists h filled =
    elim (Bool-cases (contains quote_mark path || any is_control path)) [
      | inl bad ↦ absurd (ground (arith, rw bad at h))
      | inr clean ↦
          let form : quote_mark ∷ (path ++ quote_mark ∷ []) ≡ value =
            ground (arith, rw clean at h) in
          (
            ap run_value_candidates (sym form)
                ∙ ap candidates_of (trim_end-solid (quote_mark ∷ path) quote_mark refl)
                ∙ candidates-quoted path (ground arith) filled,
            refl,
          )
    ]
