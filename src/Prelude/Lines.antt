-- ===== src/Prelude/Lines.antt =====
-- `str::lines` and the joining of lines, on bytes.
pub mod Joined
use mathlib.Core.Bool.{Bool, false}
use mathlib.Core.List.{List, [], ◌∷◌, ◌++◌}
use aztec_accelerator.Prelude.Tests.{if◌then◌else◌}
use aztec_accelerator.Prelude.Equality.{◌==◌, nat_eq}
use aztec_accelerator.Prelude.Texts.{Text, starts_with}

abbrev pub newline : Text
newline = b'\n' ∷ []

-- A byte in front of the first line.
pub lead_line : Text → List Text → List Text
lead_line c [] = c ∷ []
lead_line c (l ∷ ls) = (c ++ l) ∷ ls

-- `str::lines`: each line without its line feed, and without the one carriage return before it.
unfoldable pub lines : Text → List Text
unfolding lead_line
lines [] = []
lines (c ∷ s) =
    let rest = lines s in
    if c == b'\n'
    then [] ∷ rest
    else if c == b'\r'
    then (if starts_with s newline then rest else lead_line (c ∷ []) rest)
    else lead_line (c ∷ []) rest

-- `join("\n")`
unfoldable pub join_lines : List Text → Text
join_lines [] = []
join_lines (l ∷ []) = l
join_lines (l ∷ (m ∷ ls)) = let rest = join_lines (m ∷ ls) in l ++ (newline ++ rest)

-- `ends_with('\n')`
unfoldable pub ends_with_newline : Text → Bool
ends_with_newline [] = false
ends_with_newline (c ∷ []) = c == b'\n'
ends_with_newline (c ∷ (d ∷ s)) = ends_with_newline (d ∷ s)

-- The lines joined again, with the line feed at the end that the first text has.
unfoldable pub rejoin : Text → List Text → Text
unfolding join_lines ends_with_newline
rejoin first ls = if ends_with_newline first then join_lines ls ++ newline else join_lines ls
