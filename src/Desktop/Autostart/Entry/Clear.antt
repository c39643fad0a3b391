-- ===== src/Desktop/Autostart/Entry/Clear.antt =====
-- `desktop_clear_hidden` of packages/accelerator/src-tauri/src/autostart.rs.
use aztec_accelerator.Prelude.{
  ◌≡◌, inl, inr, refl, ap, ◌∙◌, Bool, true, false, ◌&&◌, Option, none, List, [], ◌∷◌, nat_eq,
  list_eq, All, Bool-cases, arith,
}
use aztec_accelerator.Prelude.Texts.{Text, codes}
use aztec_accelerator.Prelude.Utf8.{trim}
use aztec_accelerator.Prelude.Lines.{lines}
use aztec_accelerator.Prelude.Lines.Joined.{OneLine, lines_are-OneLine}
use aztec_accelerator.Prelude.Results.{ok}
use aztec_accelerator.Desktop.Autostart.Entry.{
  entry_after, key_value, value_of_rest, is_key_line, gives, and_then, field_step, field_loop,
  desktop_field, hidden_value, desktop_hidden, exec_key, hidden_key, clear_loop,
  desktop_clear_hidden,
}
use aztec_accelerator.Desktop.Autostart.Entry.Fields.{fields, rejoin-fields}
use aztec_accelerator.Desktop.Autostart.Entry.Rewrite.{step-cases, step-cong, exec-no_hidden}

-- A comment gives no key.
gives-clears : (b : Bool) (t : Text) → (b && is_key_line t hidden_key) ≡ gives hidden_key b t
unfolding gives is_key_line key_value value_of_rest
gives-clears b [] = ground arith
gives-clears b (c ∷ t) = ground arith

clear-hidden : (ls : List Text) (b : Bool) → fields hidden_key b none (clear_loop b ls) ≡ ok none
unfolding clear_loop field_loop and_then
clear-hidden [] b = refl
clear-hidden (l ∷ ls) b = elim (step-cases b'H' (codes "idden") b (trim l) refl) [
  | inl (g, inside, after, first, again) ↦
      rw (gives-clears (entry_after b (trim l)) (trim l), g, after, inside) (clear-hidden ls true)
  | inr (g, passes) ↦
      rw (gives-clears (entry_after b (trim l)) (trim l), g, passes none)
        (clear-hidden ls (entry_after b (trim l)))
]

hidden-not_exec :
    (b : Bool) (t : Text)
    → gives hidden_key (entry_after b t) t ≡ true
    → (f : Option Text) → field_step exec_key b f t ≡ ok (entry_after b t, f)
hidden-not_exec b t g f = elim (step-cases b'E' (codes "xec") b t refl) [
  | inl (g', inside, after, first, again) ↦
      absurd (ground (arith, exec-no_hidden (entry_after b t) t g'))
  | inr (g', passes) ↦ passes f
]

clear-exec :
    (ls : List Text) (b : Bool) (f : Option Text)
    → fields exec_key b f (clear_loop b ls) ≡ fields exec_key b f ls
unfolding clear_loop field_loop and_then
clear-exec [] b f = refl
clear-exec (l ∷ ls) b f = elim (step-cases b'H' (codes "idden") b (trim l) refl) [
  | inl (g, inside, after, first, again) ↦
      rw
        (
          gives-clears (entry_after b (trim l)) (trim l),
          g,
          hidden-not_exec b (trim l) g f,
          after,
          inside,
        )
        (clear-exec ls true f)
  | inr (g, passes) ↦
      rw (gives-clears (entry_after b (trim l)) (trim l), g)
        (step-cong b'E' (codes "xec") b (trim l) f refl _ _
          (λ f'. clear-exec ls (entry_after b (trim l)) f'))
]

clear_loop-OneLine : (ls : List Text) (b : Bool) → All OneLine ls → All OneLine (clear_loop b ls)
unfolding clear_loop
clear_loop-OneLine [] b h = tt
clear_loop-OneLine (l ∷ ls) b (one, hs) =
    let inside = entry_after b (trim l) in
    elim (Bool-cases (inside && is_key_line (trim l) hidden_key)) [
      | inl e ↦ rw e (clear_loop-OneLine ls inside hs)
      | inr e ↦ rw e (one, clear_loop-OneLine ls inside hs)
    ]

-- Clearing `Hidden` leaves an entry that is not hidden, and the `Exec` value that it had.
pub cleared_entry :
    (ini : Text)
    → (desktop_hidden (desktop_clear_hidden ini) ≡ false)
      × (desktop_field (desktop_clear_hidden ini) exec_key ≡ desktop_field ini exec_key)
unfolding desktop_hidden desktop_clear_hidden hidden_value desktop_field
cleared_entry ini =
    let ls = clear_loop false (lines ini) in
    let same =
      rejoin-fields ini ls (clear_loop-OneLine (lines ini) false (lines_are-OneLine ini)) in
    (
      ap hidden_value (same b'H' (codes "idden") false none ∙ clear-hidden (lines ini) false),
      same b'E' (codes "xec") false none ∙ clear-exec (lines ini) false none,
    )
