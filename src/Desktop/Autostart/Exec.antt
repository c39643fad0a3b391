-- ===== src/Desktop/Autostart/Exec.antt =====
-- packages/accelerator/src-tauri/src/autostart.rs: the program in the `Exec` value of a `.desktop`
-- entry, on the bytes of its UTF-8 form; the characters that matter are of ASCII.
pub mod RoundTrip
use aztec_accelerator.Prelude.{
  ℕ, Bool, true, false, ◌||◌, Option, none, some, List, [], ◌∷◌, ◌++◌, ltb, any, ◌==◌, nat_eq,
  list_eq, if◌then◌else◌,
}
use aztec_accelerator.Prelude.Lists.{keep}
use aztec_accelerator.Prelude.Texts.{Text, starts_with}
use aztec_accelerator.Prelude.Utf8.{trim}
use aztec_accelerator.Prelude.Replace.{replace}
use aztec_accelerator.Prelude.Results.{Result, ok, err}

pub data ExecErr : Type 0 where
  empty_value invalid_escape unterminated_escape unterminated_quote trailing_arguments : ExecErr
  carries_arguments empty_program : ExecErr

abbrev pub quote_mark : ℕ
quote_mark = b'"'

abbrev pub backslash : ℕ
backslash = b'\\'

-- `"\u{0}PCT\u{0}"`, which stands for a doubled percent sign.
abbrev pub placeholder : Text
placeholder = 0 ∷ (b'P' ∷ (b'C' ∷ (b'T' ∷ (0 ∷ []))))

abbrev pub double_percent : Text
double_percent = b'%' ∷ (b'%' ∷ [])

-- What is escaped within the quotes.
abbrev pub is_escaped : ℕ → Bool
is_escaped c = c == backslash || (c == quote_mark || (c == b'`' || c == b'$'))

push : ℕ → Result (Text × Text) ExecErr → Result (Text × Text) ExecErr
push c (ok (out, rest)) = ok (c ∷ out, rest)
push c (err e) = err e

-- The loop behind the opening quote: what it collects, and what is left behind the closing one.
unquote : Text → Result (Text × Text) ExecErr
unfolding push
unquote [] = err unterminated_quote
unquote (c ∷ []) =
    if c == backslash
    then err unterminated_escape
    else if c == quote_mark
    then ok ([], [])
    else err unterminated_quote
unquote (c ∷ (d ∷ s)) =
    let escaped = unquote s in
    let plain = unquote (d ∷ s) in
    if c == backslash
    then if is_escaped d then push d escaped else err invalid_escape
    else if c == quote_mark
    then ok ([], d ∷ s)
    else push c plain

-- Nothing may follow the quoted program but white space.
quoted_program : Result (Text × Text) ExecErr → Result Text ExecErr
quoted_program (err e) = err e
quoted_program (ok (out, rest)) = if trim rest == [] then ok out else err trailing_arguments

-- `split(' ')`
split_spaces : Text → List Text
split_spaces [] = [] ∷ []
split_spaces (c ∷ s) = elim (split_spaces s) [
  | [] ↦ []
  | word ∷ words ↦ if c == b' ' then [] ∷ (word ∷ words) else (c ∷ word) ∷ words
]

is_filled : Text → Bool
is_filled [] = false
is_filled (_ ∷ _) = true

is_option : Text → Bool
is_option s = starts_with s (b'-' ∷ [])

-- A value that is not quoted: its first word, where no later one is an option.
first_word : List Text → Result Text ExecErr
unfolding is_option
first_word [] = ok []
first_word (w ∷ ws) = if any is_option ws then err carries_arguments else ok w

raw_token : Text → Result Text ExecErr
unfolding quoted_program unquote first_word split_spaces is_filled
raw_token [] = first_word []
raw_token (c ∷ s) =
    if c == quote_mark
    then quoted_program (unquote s)
    else first_word (keep is_filled (split_spaces (c ∷ s)))

program_of : Result Text ExecErr → Result Text ExecErr
unfolding replace
program_of (err e) = err e
program_of (ok token) =
    let program = replace placeholder (b'%' ∷ []) token in
    if program == [] then err empty_program else ok program

unfoldable pub desktop_exec_program : Text → Result Text ExecErr
unfolding program_of raw_token replace trim
desktop_exec_program exec =
    if trim exec == []
    then err empty_value
    else program_of (raw_token (replace double_percent placeholder (trim exec)))

-- A byte below 0x20, or 0x7f.
abbrev pub is_control : ℕ → Bool
is_control c = ltb c 32 || c == 127

pub escape : Text → Text
escape [] = []
escape (c ∷ s) = if is_escaped c then backslash ∷ (c ∷ escape s) else c ∷ escape s

unfoldable pub desktop_quote : Text → Option Text
unfolding escape replace
desktop_quote path =
    if any is_control path
    then none
    else some (replace (b'%' ∷ []) double_percent (quote_mark ∷ (escape path ++ quote_mark ∷ [])))
