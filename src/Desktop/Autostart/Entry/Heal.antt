-- ===== src/Desktop/Autostart/Entry/Heal.antt =====
-- The text that the heal of packages/accelerator/src-tauri/src/autostart.rs writes.
use aztec_accelerator.Prelude.{
  ◌≡◌, ◌≢◌, inl, inr, refl, ap, ◌∙◌, Bool, true, false, not, ◌&&◌, ◌||◌, none, some, List, [], ◌∷◌,
  ◌++◌, nat_eq, list_eq, All, Bool-cases,
}
use aztec_accelerator.Prelude.Texts.{Text, codes}
use aztec_accelerator.Prelude.Utf8.{trim}
use aztec_accelerator.Prelude.Lines.{lines, rejoin}
use aztec_accelerator.Prelude.Lines.Joined.{OneLine, lines_are-OneLine}
use aztec_accelerator.Prelude.Results.{ok}
use aztec_accelerator.Desktop.Autostart.Exec.{
  escape, desktop_quote, desktop_exec_program, quote_mark,
}
use aztec_accelerator.Desktop.Autostart.Exec.RoundTrip.{
  doubled, desktop_quote-OneLine, desktop_quote-form, desktop_exec_program-desktop_quote,
}
use aztec_accelerator.Desktop.Autostart.Entry.{
  exec_key, gives, entry_after, desktop_field, hidden_value, desktop_hidden, set_loop, set_exec_of,
  desktop_set_exec,
}
use aztec_accelerator.Desktop.Autostart.Entry.Fields.{rejoin-fields}
use aztec_accelerator.Desktop.Autostart.Entry.Rewrite.{exec-replaced, hidden-kept}

set_loop-OneLine :
    (value : Text) (ls : List Text) (b r : Bool)
    → OneLine value
    → All OneLine ls
    → All OneLine (set_loop value b r ls)
unfolding set_loop
set_loop-OneLine value [] b r h hs = tt
set_loop-OneLine value (l ∷ ls) b r h (one, hs) =
    let inside = entry_after b (trim l) in
    elim (Bool-cases (not r && gives exec_key inside (trim l))) [
      | inl e ↦ rw e (h, set_loop-OneLine value ls inside (r || true) h hs)
      | inr e ↦ rw e (one, set_loop-OneLine value ls inside (r || false) h hs)
    ]

set_exec-form :
    (ini value x : Text)
    → desktop_field ini exec_key ≡ ok (some x)
    → desktop_set_exec ini value ≡ ok (rejoin ini (set_loop value false false (lines ini)))
unfolding desktop_set_exec set_exec_of
set_exec-form ini value x h = rw h refl

-- What the heal writes: in an entry with one `Exec` line the rewriting succeeds, the new `Exec` value
-- is the quoted path, which is read as the path itself, and the entry is hidden exactly if it was.
pub healed_entry :
    (ini x path : Text) {q : Text}
    → desktop_field ini exec_key ≡ ok (some x)
    → desktop_quote path ≡ some q
    → path ≢ []
    → (out : Text) × (desktop_set_exec ini q ≡ ok out)
      × (desktop_field out exec_key ≡ ok (some q))
      × (desktop_exec_program q ≡ ok path)
      × (desktop_hidden out ≡ desktop_hidden ini)
unfolding desktop_field desktop_hidden
healed_entry ini x path {q} found quoted filled =
    let (clean, form) = desktop_quote-form path quoted in
    let middle = doubled (escape path) in
    let ls = set_loop q false false (lines ini) in
    let same = rejoin-fields ini ls (
      set_loop-OneLine q (lines ini) false false (desktop_quote-OneLine path quoted)
        (lines_are-OneLine ini)) in
    let as_written : ls
        ≡ set_loop (quote_mark ∷ (middle ++ quote_mark ∷ [])) false false (lines ini) =
      ap (λ v. set_loop v false false (lines ini)) form in
    (
      rejoin ini ls,
      set_exec-form ini q x found,
      same b'E' (codes "xec") false none
          ∙ rw (as_written, form)
              (exec-replaced quote_mark middle quote_mark refl refl (lines ini) false x found),
      desktop_exec_program-desktop_quote path quoted filled,
      ap hidden_value (
          same b'H' (codes "idden") false none
          ∙ rw as_written
              (hidden-kept quote_mark middle quote_mark refl refl (lines ini) false none)),
    )
