-- ===== src/Desktop/Autostart/Entry/Rewrite.antt =====
-- Rewriting a `.desktop` entry, in packages/accelerator/src-tauri/src/autostart.rs: what the rewritten
-- entry says of each field.
use aztec_accelerator.Prelude.{
  ℕ, ◌≡◌, ◌⊎◌, inl, inr, refl, subst, ap, ◌∙◌, Bool, true, false, Option, none, some, List, [], ◌∷◌,
  ◌++◌, ◌==◌, nat_eq, list_eq, Bool-cases, Option-cases, arith,
}
use aztec_accelerator.Prelude.Texts.{Text, codes}
use aztec_accelerator.Prelude.Utf8.{is_solid, trim, trim_start, trim-solid, trim_start-solid}
use aztec_accelerator.Prelude.Results.{Result, ok, err}
use aztec_accelerator.Desktop.Autostart.Entry.{
  EntryErr, entry_after, opens_group, is_comment, key_value, with_value, field_step, and_then,
  value_of_rest, strip_prefix, is_key_line, field_loop, exec_key, hidden_key, gives,
  duplicate_field, set_loop,
}
use aztec_accelerator.Desktop.Autostart.Entry.Fields.{fields}

-- A line that opens a group gives no key.
opens-no_key :
    (k : ℕ) (ks t : Text) → (k == b'[') ≡ false → opens_group t ≡ true → key_value t (k ∷ ks) ≡ none
unfolding key_value value_of_rest
opens-no_key k ks [] h o = absurd (ground arith)
opens-no_key k ks (c ∷ s) h o = ground arith

-- A round that meets the key: the value is found, or found again.
abbrev pub Meets : Text → Bool → Text → Type 0
Meets key b t =
    (gives key (entry_after b t) t ≡ true)
    × (b ≡ true)
    × (entry_after b t ≡ true)
    × ((v : Text) × (field_step key b none t ≡ ok (true, some v)))
    × ((x : Text) → field_step key b (some x) t ≡ err duplicate_field)

-- A round that does not.
abbrev pub Passes : Text → Bool → Text → Type 0
Passes key b t =
    (gives key (entry_after b t) t ≡ false)
    × ((f : Option Text) → field_step key b f t ≡ ok (entry_after b t, f))

pub step-cases :
    (k : ℕ) (ks : Text) (b : Bool) (t : Text)
    → (k == b'[') ≡ false
    → Meets (k ∷ ks) b t ⊎ Passes (k ∷ ks) b t
unfolding gives is_key_line field_step with_value
step-cases k ks b t h = elim (Bool-cases (opens_group t)) [
  | inl o ↦ let nothing = opens-no_key k ks t h o in inr (ground (arith, nothing), λ f. rw o refl)
  | inr o ↦ elim (Bool-cases b) [
    | inr out ↦ inr (rw (o, out) refl, λ f. rw (o, out) refl)
    | inl within ↦ elim (Bool-cases (is_comment t)) [
      | inl comment ↦ inr (rw (o, within, comment) refl, λ f. rw (o, within, comment) refl)
      | inr plain ↦ elim (Option-cases (key_value t (k ∷ ks))) [
        | inl e ↦ inr (ground (arith, e), λ f. ground (arith, e))
        | inr (v, e) ↦ inl (
          ground (arith, e),
          within,
          rw (o, within) refl,
          (trim_start v, ground (arith, e)),
          λ x. ground (arith, e),
        )
      ]
    ]
  ]
]

-- Both go on from the state behind the line.
pub step-cong :
    (k : ℕ) (ks : Text) (b : Bool) (t : Text) (f : Option Text)
    → (k == b'[') ≡ false
    → (g h : Bool → Option Text → Result (Option Text) EntryErr)
    → ((f' : Option Text) → g (entry_after b t) f' ≡ h (entry_after b t) f')
    → and_then (field_step (k ∷ ks) b f t) g ≡ and_then (field_step (k ∷ ks) b f t) h
unfolding and_then
step-cong k ks b t none ne g h same = elim (step-cases k ks b t ne) [
  | inl (given, inside, after, (v, first), again) ↦
      rw first (subst (λ (x : Bool). g x (some v) ≡ h x (some v)) after (same (some v)))
  | inr (given, passes) ↦ rw (passes none) (same none)
]
step-cong k ks b t (some x) ne g h same = elim (step-cases k ks b t ne) [
  | inl (given, inside, after, first, again) ↦ rw (again x) refl
  | inr (given, passes) ↦ rw (passes (some x)) (same (some x))
]

-- An `Exec` line is no `Hidden` line.
pub exec-no_hidden :
    (b : Bool) (t : Text) → gives exec_key b t ≡ true → gives hidden_key b t ≡ false
unfolding gives is_key_line key_value value_of_rest
exec-no_hidden b [] h = absurd (ground arith)
exec-no_hidden b (c ∷ t) h = elim (Bool-cases (c == b'E')) [
  | inl e ↦ let e' : (c == b'H') ≡ false = ground arith in rw e' ground arith
  | inr e ↦ absurd (ground arith)
]

exec-not_hidden :
    (b : Bool) (t : Text)
    → gives exec_key (entry_after b t) t ≡ true
    → (f : Option Text) → field_step hidden_key b f t ≡ ok (entry_after b t, f)
exec-not_hidden b t g f = elim (step-cases b'H' (codes "idden") b t refl) [
  | inl (g', inside, after, first, again) ↦
      absurd (ground (arith, exec-no_hidden (entry_after b t) t g))
  | inr (g', passes) ↦ passes f
]

-- Once a line is replaced the others stay.
set_loop-replaced : (value : Text) (ls : List Text) (b : Bool) → set_loop value b true ls ≡ ls
unfolding set_loop
set_loop-replaced value [] b = refl
set_loop-replaced value (l ∷ ls) b =
    ap (λ r. l ∷ r) (set_loop-replaced value ls (entry_after b (trim l)))

set_loop-nil : (value : Text) (b r : Bool) → set_loop value b r [] ≡ []
unfolding set_loop
set_loop-nil value b r = refl

set_loop-meets :
    (value l : Text) (ls : List Text) (b : Bool)
    → gives exec_key (entry_after b (trim l)) (trim l) ≡ true
    → set_loop value b false (l ∷ ls) ≡ (codes "Exec=" ++ value) ∷ ls
unfolding set_loop
set_loop-meets value l ls b g =
    rw g
      (ap (λ r. (codes "Exec=" ++ value) ∷ r) (set_loop-replaced value ls (entry_after b (trim l))))

set_loop-passes :
    (value l : Text) (ls : List Text) (b : Bool)
    → gives exec_key (entry_after b (trim l)) (trim l) ≡ false
    → set_loop value b false (l ∷ ls) ≡ l ∷ set_loop value (entry_after b (trim l)) false ls
unfolding set_loop
set_loop-passes value l ls b g = rw g refl

-- Behind a value that is found the others only matter by their presence.
found-kept :
    (ls : List Text) (b : Bool) (x y z : Text)
    → fields exec_key b (some x) ls ≡ ok (some y)
    → fields exec_key b (some z) ls ≡ ok (some z)
unfolding field_loop and_then
found-kept [] b x y z h = refl
found-kept (l ∷ ls) b x y z h = elim (step-cases b'E' (codes "xec") b (trim l) refl) [
  | inl (g, inside, after, first, again) ↦ absurd (ground (arith, rw (again x) at h))
  | inr (g, pass) ↦
      rw (pass (some z)) (found-kept ls (entry_after b (trim l)) x y z (rw (pass (some x)) at h))
]

-- The value that is written, with solid characters at both ends.
module _ (a : ℕ) (m : Text) (d : ℕ) (solid_a : is_solid a ≡ true)
    (solid_d : is_solid d ≡ true) where
  abbrev pub written : Text
  written = a ∷ (m ++ d ∷ [])

  abbrev pub exec_line : Text
  exec_line = codes "Exec=" ++ written

  trim-exec_line : trim exec_line ≡ exec_line
  trim-exec_line = trim-solid b'E' (codes "xec=" ++ a ∷ m) d refl solid_d

  -- A line in the group gives the value, where none was found.
  pub exec_line-found : field_step exec_key true none (trim exec_line) ≡ ok (true, some written)
  unfolding field_step with_value key_value value_of_rest
  exec_line-found = rw trim-exec_line (
      ap (λ v. with_value true none (strip_prefix v (codes "=")))
        (trim_start-solid b'=' written refl)
      ∙ ap (λ v. ok (true, some v)) (trim_start-solid a (m ++ d ∷ []) solid_a))

  pub exec_line-not_hidden :
      (f : Option Text) → field_step hidden_key true f (trim exec_line) ≡ ok (true, f)
  unfolding field_step with_value key_value value_of_rest
  exec_line-not_hidden f = rw trim-exec_line refl

  pub exec-replaced :
      (ls : List Text) (b : Bool) (x : Text)
      → fields exec_key b none ls ≡ ok (some x)
      → fields exec_key b none (set_loop written b false ls) ≡ ok (some written)
  unfolding field_loop set_loop and_then
  exec-replaced [] b x h = absurd (ground arith)
  exec-replaced (l ∷ ls) b x h = elim (step-cases b'E' (codes "xec") b (trim l) refl) [
    | inl (g, inside, after, (v, first), again) ↦
        rw (set_loop-meets written l ls b g, inside, exec_line-found)
          (found-kept ls true v x written (rw first at h))
    | inr (g, pass) ↦
        rw (set_loop-passes written l ls b g, pass none)
          (exec-replaced ls (entry_after b (trim l)) x (rw (pass none) at h))
  ]

  pub hidden-kept :
      (ls : List Text) (b : Bool) (f : Option Text)
      → fields hidden_key b f (set_loop written b false ls) ≡ fields hidden_key b f ls
  unfolding field_loop and_then
  hidden-kept [] b f = ap (fields hidden_key b f) (set_loop-nil written b false)
  hidden-kept (l ∷ ls) b f = elim (step-cases b'E' (codes "xec") b (trim l) refl) [
    | inl (g, inside, after, first, again) ↦
        let pass = exec-not_hidden b (trim l) g f in
        rw (set_loop-meets written l ls b g, pass, after, inside, exec_line-not_hidden f) refl
    | inr (g, pass) ↦ rw (set_loop-passes written l ls b g) (
        step-cong b'H' (codes "idden") b (trim l) f refl _ _
          (λ f'. hidden-kept ls (entry_after b (trim l)) f'))
  ]
