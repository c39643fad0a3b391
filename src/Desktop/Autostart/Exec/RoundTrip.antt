-- ===== src/Desktop/Autostart/Exec/RoundTrip.antt =====
-- Writing the `Exec` value of packages/accelerator/src-tauri/src/autostart.rs, and reading it.
use aztec_accelerator.Prelude.{
  ℕ, ◌≡◌, ◌≢◌, inl, inr, refl, sym, ap, ◌∙◌, true, false, some, [], ◌∷◌, ◌++◌, any, ◌==◌, nat_eq,
  list_eq, if◌then◌else◌, Bool-cases, arith, eq_sound,
}
use aztec_accelerator.Prelude.Equality.{list_beq}
use aztec_accelerator.Prelude.Texts.{Text}
use aztec_accelerator.Prelude.Utf8.{trim, trim-solid}
use aztec_accelerator.Prelude.Lists.{contains-append}
use aztec_accelerator.Prelude.Lines.Joined.{OneLine}
use aztec_accelerator.Prelude.Replace.{replace, replace_from}
use aztec_accelerator.Prelude.Results.{Result, ok}
use aztec_accelerator.Desktop.Autostart.Exec.{
  ExecErr, placeholder, double_percent, quote_mark, backslash, is_escaped, is_control, push,
  unquote, quoted_program, raw_token, program_of, desktop_exec_program, escape, desktop_quote,
}

-- Every percent sign is written as the placeholder.
unfoldable marked : Text → Text
marked [] = []
marked (c ∷ s) = let rest = marked s in if c == b'%' then placeholder ++ rest else c ∷ rest

-- Undoubling what was doubled marks the percent signs.
replace-doubled :
    (s : Text)
    → replace_from double_percent placeholder 0 (replace_from (b'%' ∷ []) double_percent 0 s)
      ≡ marked s
unfolding replace_from marked
replace-doubled [] = refl
replace-doubled (c ∷ s) = elim (Bool-cases (c == b'%')) [
  | inl e ↦ let same = eq_sound c b'%' e in rw same (ap (λ r. placeholder ++ r) (replace-doubled s))
  | inr e ↦ ground (arith, replace-doubled s)
]

-- Back to the percent signs, where the text has none of the placeholder's NUL bytes.
replace-marked :
    (s : Text) → any is_control s ≡ false → replace_from placeholder (b'%' ∷ []) 0 (marked s) ≡ s
unfolding replace_from marked
replace-marked [] h = refl
replace-marked (c ∷ s) h = elim (Bool-cases (c == b'%')) [
  | inl e ↦
      let same = eq_sound c b'%' e in rw same (ap (λ r. b'%' ∷ r) (replace-marked s (ground arith)))
  | inr e ↦ ground (arith, replace-marked s)
]

unquote-plain :
    (c : ℕ) (s : Text)
    → s ≢ []
    → (c == backslash) ≡ false
    → (c == quote_mark) ≡ false
    → unquote (c ∷ s) ≡ push c (unquote s)
unfolding unquote
unquote-plain c [] filled b q = absurd (filled refl)
unquote-plain c (d ∷ s) filled b q = rw (b, q) refl

unquote-escaped :
    (d : ℕ) (s : Text) → is_escaped d ≡ true → unquote (backslash ∷ (d ∷ s)) ≡ push d (unquote s)
unfolding unquote
unquote-escaped d s h = rw h refl

-- What the closing quote ends is not empty.
marked-filled : (s t : Text) (c : ℕ) → marked (s ++ c ∷ t) ≢ []
unfolding marked
marked-filled [] t c = λ h. ground (arith, h)
marked-filled (a ∷ s) t c = λ h. ground (arith, h)

-- The placeholder is collected as it is.
unquote-placeholder :
    (s out rest : Text)
    → s ≢ []
    → unquote s ≡ ok (out, rest)
    → unquote (placeholder ++ s) ≡ ok (placeholder ++ out, rest)
unfolding unquote push
unquote-placeholder [] out rest filled h = absurd (filled refl)
unquote-placeholder (d ∷ s) out rest filled h = rw h refl

unquote-escape :
    (path : Text) → unquote (marked (escape path ++ quote_mark ∷ [])) ≡ ok (marked path, [])
unfolding escape marked unquote push
unquote-escape [] = refl
unquote-escape (c ∷ path) =
    let again = unquote-escape path in
    let filled = marked-filled (escape path) [] quote_mark in
    elim (Bool-cases (c == b'%')) [
      | inl e ↦
          let same = eq_sound c b'%' e in
          rw same (
            unquote-placeholder (marked (escape path ++ quote_mark ∷ [])) (marked path) [] filled
              again)
      | inr e ↦ elim (Bool-cases (is_escaped c)) [
        | inl h ↦
            rw (h, e)
              (unquote-escaped c (marked (escape path ++ quote_mark ∷ [])) h ∙ ap (push c) again)
        | inr h ↦
            rw (h, e)
              (unquote-plain c (marked (escape path ++ quote_mark ∷ [])) filled (ground arith)
                  (ground arith)
                ∙ ap (push c) again)
      ]
    ]

abbrev pub doubled : Text → Text
doubled s = replace_from (b'%' ∷ []) double_percent 0 s

doubled-append :
    (s : Text) (c : ℕ) → (c == b'%') ≡ false → doubled (s ++ c ∷ []) ≡ doubled s ++ c ∷ []
unfolding replace_from
doubled-append [] c h = ground arith
doubled-append (a ∷ s) c h = elim (Bool-cases (a == b'%')) [
  | inl e ↦
      let same = eq_sound a b'%' e in rw same (ap (λ r. double_percent ++ r) (doubled-append s c h))
  | inr e ↦ ground (arith, doubled-append s c h)
]

-- What `desktop_quote` writes.
pub desktop_quote-form :
    (path : Text) {q : Text}
    → desktop_quote path ≡ some q
    → (any is_control path ≡ false) × (q ≡ quote_mark ∷ (doubled (escape path) ++ quote_mark ∷ []))
unfolding desktop_quote replace replace_from
desktop_quote-form path {q} h = elim (Bool-cases (any is_control path)) [
  | inl bad ↦ absurd (ground (arith, rw bad at h))
  | inr clean ↦
      let same : quote_mark ∷ doubled (escape path ++ quote_mark ∷ []) ≡ q =
        ground (arith, rw clean at h) in
      (clean, sym same ∙ ap (λ r. quote_mark ∷ r) (doubled-append (escape path) quote_mark refl))
]

token-marked :
    (path : Text)
    → raw_token (marked (quote_mark ∷ (escape path ++ quote_mark ∷ []))) ≡ ok (marked path)
unfolding marked raw_token quoted_program trim list_beq
token-marked path = rw (unquote-escape path) refl

program-marked :
    (path : Text)
    → any is_control path ≡ false
    → path ≢ []
    → program_of (ok (marked path)) ≡ ok path
unfolding program_of replace list_beq
program-marked [] clean filled = absurd (filled refl)
program-marked (c ∷ s) clean filled = rw (replace-marked (c ∷ s) clean) refl

exec_of_trimmed :
    (c : ℕ) (s : Text)
    → trim (c ∷ s) ≡ c ∷ s
    → desktop_exec_program (c ∷ s)
      ≡ program_of (raw_token (replace_from double_percent placeholder 0 (c ∷ s)))
unfolding desktop_exec_program list_beq
exec_of_trimmed c s h = rw h refl

-- A path is started as itself: whatever `desktop_quote` writes for a path that is not empty, with its
-- quotes, backslashes, dollar and percent signs, `desktop_exec_program` reads as that path.
pub desktop_exec_program-desktop_quote :
    (path : Text) {q : Text}
    → desktop_quote path ≡ some q
    → path ≢ []
    → desktop_exec_program q ≡ ok path
unfolding replace_from
desktop_exec_program-desktop_quote path {q} h filled =
    let (clean, form) = desktop_quote-form path h in
    let middle = doubled (escape path) in
    let back = ap (λ r. quote_mark ∷ r) (sym (doubled-append (escape path) quote_mark refl)) in
    let read : Text → Result Text ExecErr =
      λ t. program_of (raw_token (replace_from double_percent placeholder 0 t)) in
    rw form (
      exec_of_trimmed quote_mark (middle ++ quote_mark ∷ [])
        (trim-solid quote_mark middle quote_mark refl refl)
      ∙ ap read back
      ∙ ap (λ t. program_of (raw_token t))
          (replace-doubled (quote_mark ∷ (escape path ++ quote_mark ∷ [])))
      ∙ ap program_of (token-marked path)
      ∙ program-marked path clean filled)

escape-OneLine : (path : Text) → any is_control path ≡ false → OneLine (escape path)
unfolding escape
escape-OneLine [] h = refl
escape-OneLine (c ∷ s) h = ground (arith, escape-OneLine s)

doubled-OneLine : (s : Text) → OneLine s → OneLine (doubled s)
unfolding replace_from
doubled-OneLine [] h = refl
doubled-OneLine (c ∷ s) h = elim (Bool-cases (c == b'%')) [
  | inl e ↦ ground (arith, doubled-OneLine s)
  | inr e ↦ ground (arith, doubled-OneLine s)
]

-- What is written for a path is one line.
pub desktop_quote-OneLine : (path : Text) {q : Text} → desktop_quote path ≡ some q → OneLine q
desktop_quote-OneLine path {q} h =
    let (clean, form) = desktop_quote-form path h in
    let inner = doubled-OneLine (escape path) (escape-OneLine path clean) in
    rw form (ground (arith, contains-append b'\n' (doubled (escape path)) (quote_mark ∷ [])))

pub clean-desktop_quote :
    (path : Text) → any is_control path ≡ false → (q : Text) × (desktop_quote path ≡ some q)
unfolding desktop_quote replace
clean-desktop_quote path clean =
    (doubled (quote_mark ∷ (escape path ++ quote_mark ∷ [])), rw clean refl)
