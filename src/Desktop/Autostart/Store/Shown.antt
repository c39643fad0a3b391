-- ===== src/Desktop/Autostart/Store/Shown.antt =====
-- The entry that packages/accelerator/src-tauri/src/autostart.rs writes where there is none, or none that
-- it can rewrite.
use aztec_accelerator.Prelude.{
  ◌≡◌, ◌≢◌, refl, sym, ap, ◌∙◌, true, false, Option, none, some, List, [], ◌∷◌, ◌++◌, nat_eq,
  list_eq, arith,
}
use aztec_accelerator.Prelude.Equality.{list_beq}
use aztec_accelerator.Prelude.Texts.{Text, codes}
use aztec_accelerator.Prelude.Utf8.{trim}
use aztec_accelerator.Prelude.Lines.{lines, newline}
use aztec_accelerator.Prelude.Lines.Joined.{OneLine, lines-newline-trim}
use aztec_accelerator.Prelude.Results.{Result, ok, err}
use aztec_accelerator.Desktop.Autostart.Exec.{desktop_quote, quote_mark, escape}
use aztec_accelerator.Desktop.Autostart.Exec.RoundTrip.{
  doubled, desktop_quote-form, desktop_quote-OneLine,
}
use aztec_accelerator.Desktop.Autostart.Entry.{
  EntryErr, exec_key, hidden_key, and_then, field_step, field_loop, desktop_field, hidden_value,
  desktop_hidden, set_exec_of, desktop_set_exec, desktop_render_fresh,
}
use aztec_accelerator.Desktop.Autostart.Entry.Fields.{fields}
use aztec_accelerator.Desktop.Autostart.Entry.Rewrite.{exec_line-found, exec_line-not_hidden}
use aztec_accelerator.Desktop.Autostart.Entry.Heal.{healed_entry}
use aztec_accelerator.Desktop.Autostart.Entry.Clear.{cleared_entry}
use aztec_accelerator.Desktop.Autostart.Store.{app_name, shown}

abbrev before_exec : List Text
before_exec =
    codes "[Desktop Entry]"
    ∷ (codes "Type=Application"
        ∷ (codes "Version=1.0"
            ∷ (codes "Name=Aztec Accelerator"
                ∷ (codes "Comment=Aztec Accelerator startup script" ∷ []))))

abbrev behind_exec : List Text
behind_exec = codes "StartupNotify=false" ∷ (codes "Terminal=false" ∷ [])

fresh-lines :
    (q : Text)
    → OneLine q
    → (l : Text) × (lines (desktop_render_fresh app_name q) ≡ before_exec ++ (l ∷ behind_exec))
      × (trim l ≡ trim (codes "Exec=" ++ q))
unfolding desktop_render_fresh lines
fresh-lines q one =
    let (l, same, trimmed) =
      lines-newline-trim (codes "Exec=" ++ q)
        ((codes "StartupNotify=false" ++ newline) ++ (codes "Terminal=false" ++ newline)) one in
    (l, ap (λ r. before_exec ++ r) same, trimmed)

fresh-exec :
    (l : Text)
    → fields exec_key false none (before_exec ++ (l ∷ behind_exec))
      ≡ fields exec_key true none (l ∷ behind_exec)
unfolding field_loop and_then field_step trim list_beq
fresh-exec l = refl

fresh-hidden :
    (l : Text)
    → fields hidden_key false none (before_exec ++ (l ∷ behind_exec))
      ≡ fields hidden_key true none (l ∷ behind_exec)
unfolding field_loop and_then field_step trim list_beq
fresh-hidden l = refl

behind-exec : (q : Text) → fields exec_key true (some q) behind_exec ≡ ok (some q)
unfolding field_loop and_then field_step trim list_beq
behind-exec q = refl

behind-hidden : fields hidden_key true none behind_exec ≡ ok none
unfolding field_loop and_then field_step trim list_beq
behind-hidden = refl

-- An entry that starts the value and is not hidden.
abbrev pub Starts : Text → Text → Type 0
Starts ini q = (desktop_field ini exec_key ≡ ok (some q)) × (desktop_hidden ini ≡ false)

pub fresh-Starts :
    (path : Text) {q : Text}
    → desktop_quote path ≡ some q
    → Starts (desktop_render_fresh app_name q) q
unfolding desktop_field desktop_hidden field_loop and_then
fresh-Starts path {q} quoted =
    let (clean, form) = desktop_quote-form path quoted in
    let middle = doubled (escape path) in
    let (l, same, trimmed) = fresh-lines q (desktop_quote-OneLine path quoted) in
    let as_line = trimmed ∙ ap (λ v. trim (codes "Exec=" ++ v)) form in
    let exec : fields exec_key true none (l ∷ behind_exec) ≡ ok (some q) =
      rw (as_line, exec_line-found quote_mark middle quote_mark refl refl)
        (behind-exec (quote_mark ∷ (middle ++ quote_mark ∷ []))
          ∙ ap (λ v. ok (some v)) (sym form)) in
    let hidden : fields hidden_key true none (l ∷ behind_exec) ≡ ok none =
      rw (as_line, exec_line-not_hidden quote_mark middle quote_mark refl refl none)
        behind-hidden in
    (
      ap (fields exec_key false none) same ∙ fresh-exec l ∙ exec,
      ap hidden_value (ap (fields hidden_key false none) same ∙ fresh-hidden l ∙ hidden),
    )

set_exec-found :
    (r : Result (Option Text) EntryErr) (ini value out : Text)
    → set_exec_of r ini value ≡ ok out
    → (x : Text) × (r ≡ ok (some x))
unfolding set_exec_of
set_exec-found (err e) ini value out h = absurd (ground arith)
set_exec-found (ok none) ini value out h = absurd (ground arith)
set_exec-found (ok (some x)) ini value out h = (x, refl)

-- The entry that is rewritten and shown starts the value.
pub shown-Starts :
    (path ini : Text) (r : Result Text EntryErr) {q : Text}
    → desktop_quote path ≡ some q
    → path ≢ []
    → desktop_set_exec ini q ≡ r
    → Starts (shown r q) q
unfolding desktop_set_exec shown
shown-Starts path ini (err e) quoted filled set = fresh-Starts path quoted
shown-Starts path ini (ok rewritten) {q} quoted filled set =
    let (x, found) = set_exec-found (desktop_field ini exec_key) ini q rewritten set in
    let (out, set', field, program, hidden) = healed_entry ini x path found quoted filled in
    let same : out ≡ rewritten =
      let both : ok out ≡ ok rewritten = sym set' ∙ set in ground arith in
    let (shows, kept) = cleared_entry rewritten in
    (kept ∙ ap (λ t. desktop_field t exec_key) (sym same) ∙ field, shows)
