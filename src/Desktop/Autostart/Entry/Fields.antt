-- ===== src/Desktop/Autostart/Entry/Fields.antt =====
-- The fields of joined lines, for the entries of packages/accelerator/src-tauri/src/autostart.rs.
use aztec_accelerator.Prelude.{
  ℕ, ◌≡◌, inl, inr, refl, sym, subst, ap, ◌∙◌, Bool, true, false, Option, List, [], ◌∷◌, ◌++◌, map,
  nat_eq, list_eq, All, Bool-cases,
}
use mathlib.Core.List.{append_assoc}
use aztec_accelerator.Prelude.Texts.{Text}
use aztec_accelerator.Prelude.Utf8.{trim}
use aztec_accelerator.Prelude.Lines.{lines, join_lines, rejoin, ends_with_newline, newline}
use aztec_accelerator.Prelude.Lines.Joined.{OneLine, lines-newline-trim, lines-OneLine}
use aztec_accelerator.Prelude.Results.{Result, ok, err}
use aztec_accelerator.Desktop.Autostart.Entry.{
  EntryErr, key_value, Seen, with_value, field_step, and_then, value_of_rest, field_loop,
}

-- The fields that lines give, from a state of the loop.
abbrev pub fields : Text → Bool → Option Text → List Text → Result (Option Text) EntryErr
fields key in_entry found ls = field_loop key in_entry found (map trim ls)

-- Two lists of lines that give every field alike.
abbrev pub SameFields : List Text → List Text → Type 0
SameFields ls ms =
    (k : ℕ) (ks : Text) (b : Bool) (f : Option Text)
    → fields (k ∷ ks) b f ls ≡ fields (k ∷ ks) b f ms

-- A line is read the same in front of the same fields.
pub and_then-cong :
    (r : Seen) (f g : Bool → Option Text → Result (Option Text) EntryErr)
    → ((b : Bool) (o : Option Text) → f b o ≡ g b o)
    → and_then r f ≡ and_then r g
unfolding and_then
and_then-cong (err e) f g same = refl
and_then-cong (ok (b, o)) f g same = same b o

fields-cong :
    (line line' : Text) (ls ms : List Text)
    → trim line ≡ trim line'
    → SameFields ls ms
    → SameFields (line ∷ ls) (line' ∷ ms)
unfolding field_loop
fields-cong line line' ls ms trimmed same k ks b f =
    rw trimmed (and_then-cong (field_step (k ∷ ks) b f (trim line')) _ _ (λ b' f'. same k ks b' f'))

blank-fields : SameFields ([] ∷ []) []
unfolding field_loop field_step and_then key_value value_of_rest with_value trim
blank-fields k ks true f = refl
blank-fields k ks false f = refl

SameFields-refl : (ls : List Text) → SameFields ls ls
SameFields-refl ls k ks b f = refl

OneLine-fields : (l : Text) → OneLine l → SameFields (lines l) (l ∷ [])
unfolding lines
OneLine-fields [] one k ks b f = sym (blank-fields k ks b f)
OneLine-fields (c ∷ s) one k ks b f = rw (lines-OneLine c s one) refl

-- The lines of joined lines give the fields of the lines.
join_lines-fields : (ls : List Text) → All OneLine ls → SameFields (lines (join_lines ls)) ls
unfolding join_lines lines
join_lines-fields [] h k ks b f = refl
join_lines-fields (l ∷ []) (one, h) k ks b f = OneLine-fields l one k ks b f
join_lines-fields (l ∷ (m ∷ ls)) (one, h) k ks b f =
    let (l', same, trimmed) = lines-newline-trim l (join_lines (m ∷ ls)) one in
    subst (λ t. fields (k ∷ ks) b f t ≡ fields (k ∷ ks) b f (l ∷ (m ∷ ls))) (sym same)
      (fields-cong l' l (lines (join_lines (m ∷ ls))) (m ∷ ls) trimmed
        (join_lines-fields (m ∷ ls) h) k ks b f)

join_newline-fields :
    (ls : List Text) → All OneLine ls → SameFields (lines (join_lines ls ++ newline)) ls
unfolding join_lines lines
join_newline-fields [] h k ks b f = blank-fields k ks b f
join_newline-fields (l ∷ []) (one, h) k ks b f =
    let (l', same, trimmed) = lines-newline-trim l [] one in
    subst (λ t. fields (k ∷ ks) b f t ≡ fields (k ∷ ks) b f (l ∷ [])) (sym same)
      (fields-cong l' l [] [] trimmed (SameFields-refl []) k ks b f)
join_newline-fields (l ∷ (m ∷ ls)) (one, h) k ks b f =
    let rest = join_lines (m ∷ ls) in
    let (l', same, trimmed) = lines-newline-trim l (rest ++ newline) one in
    subst (λ t. fields (k ∷ ks) b f t ≡ fields (k ∷ ks) b f (l ∷ (m ∷ ls)))
      (sym (ap lines (append_assoc l (newline ++ rest) newline) ∙ same))
      (fields-cong l' l (lines (rest ++ newline)) (m ∷ ls) trimmed (join_newline-fields (m ∷ ls) h)
        k ks b f)

pub rejoin-fields :
    (ini : Text) (ls : List Text) → All OneLine ls → SameFields (lines (rejoin ini ls)) ls
unfolding rejoin
rejoin-fields ini ls h k ks b f = elim (Bool-cases (ends_with_newline ini)) [
  | inl e ↦ rw e (join_newline-fields ls h k ks b f)
  | inr e ↦ rw e (join_lines-fields ls h k ks b f)
]
