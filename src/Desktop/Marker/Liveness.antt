-- ===== src/Desktop/Marker/Liveness.antt =====
-- How long a window of packages/accelerator/src-tauri/src/update_marker.rs can suppress, over two
-- starts.
use aztec_accelerator.Prelude.{
  ℕ, ◌+◌, ◌≤◌, ◌≡◌, ◌⊎◌, inl, inr, refl, sym, subst, ◌∙◌, Bool, true, false, Option, none, some,
  List, arith, nat_eq, list_eq, Bool-cases, Option-cases,
}
use aztec_accelerator.Prelude.Texts.{Text}
use aztec_accelerator.Prelude.Ints.{ℤ, pos, negsuc}
use aztec_accelerator.SemVer.{SemVer}
use aztec_accelerator.Desktop.Marker.{
  MarkerJson, MarkerPayload, Slot, absent, unreadable, bytes, Files, Removable, Recovery, Action,
  Decision, remove, suppress, expire, proceed, PathState, remove_all, remove_file, LoadedMarker,
  missing, corrupt, valid, load, load_parsed, load_bounded, read_bounded, Bounded, not_found,
  read_error, contents, before, with_intent, finish, decided, reconcile_loaded,
  reconcile_under_lock, max_future_secs,
}

-- A file was removed, or is as it was.
abbrev pub Kept : Slot → Slot → Type 0
Kept s' s = (s' ≡ absent) ⊎ (s' ≡ s)

remove_file-Kept : (s : Slot) (b : Bool) → Kept (remove_file s b) s
unfolding remove_file
remove_file-Kept s true = inl refl
remove_file-Kept s false = inr refl

remove_all-Kept : (fs : Files) (r : Removable) → Kept (remove_all fs r).0.marker fs.marker
unfolding remove_all
remove_all-Kept fs r = remove_file-Kept fs.marker r.marker_ok

remove_all-absent :
    (fs : Files) (r : Removable) → r.marker_ok ≡ true → (remove_all fs r).0.marker ≡ absent
unfolding remove_all remove_file
remove_all-absent fs r h = rw h refl

module _ (sv : SemVer) (js : MarkerJson) where
  open sv use {Version, parse, to_string}

  finish-Kept :
      (p : Files × Bool) (fs : Files) (actions : List Action)
      → Kept p.0.marker fs.marker
      → Kept (finish sv js p actions).0.marker fs.marker
  unfolding finish
  finish-Kept (fs', true) fs actions h = h
  finish-Kept (fs', false) fs actions h = h

  with_intent-Kept :
      (intent : Option Bool) (fs : Files) (r : Removable) (rec : Recovery)
      → Kept (with_intent sv js intent fs r rec).0.marker fs.marker
  unfolding with_intent
  with_intent-Kept none fs r rec = inr refl
  with_intent-Kept (some true) fs r rec = elim (Bool-cases rec.arm_ok) [
    | inl e ↦ rw e (finish-Kept (remove_all fs r) fs _ (remove_all-Kept fs r))
    | inr e ↦ rw e (inr refl)
  ]
  with_intent-Kept (some false) fs r rec = elim (Bool-cases rec.disarm_confirmed) [
    | inl e ↦ rw e (finish-Kept (remove_all fs r) fs _ (remove_all-Kept fs r))
    | inr e ↦ rw e (inr refl)
  ]

  decided-Kept :
      (d : Option Decision) (fs : Files) (r : Removable) (rec : Recovery)
      → Kept (decided sv js d fs r rec).0.marker fs.marker
  unfolding decided
  decided-Kept none fs r rec = inr refl
  decided-Kept (some suppress) fs r rec = inr refl
  decided-Kept (some expire) fs r rec = remove_all-Kept fs r
  decided-Kept (some remove) fs r rec = with_intent-Kept rec.intent_read fs r rec

  -- What one start leaves of the marker.
  Left : LoadedMarker sv js → Slot → Slot → Type 0
  Left missing s' s = s' ≡ s
  Left corrupt s' s = s' ≡ absent
  Left (valid m) s' s = Kept s' s

  reconcile_loaded-Left :
      (l : LoadedMarker sv js) (fs : Files) (now : ℕ) (running : Version) (exe : Text)
      (stat : Text → PathState) (r : Removable) (rec : Recovery)
      → r.marker_ok ≡ true
      → Left l (reconcile_loaded sv js l fs now running exe stat r rec).0.marker fs.marker
  unfolding reconcile_loaded Left
  reconcile_loaded-Left missing fs now running exe stat r rec ok = refl
  reconcile_loaded-Left corrupt fs now running exe stat r rec ok = remove_all-absent fs r ok
  reconcile_loaded-Left (valid m) fs now running exe stat r rec ok =
      elim (Bool-cases (before now m.deadline_unix)) [
        | inl live ↦ rw live (decided-Kept _ fs r rec)
        | inr over ↦ rw over (remove_all-Kept fs r)
      ]

  -- Nothing is at the marker's path.
  absent-proceeds :
      (fs : Files) (now : ℕ) (running : Version) (exe : Text) (stat : Text → PathState)
      (r : Removable) (rec : Recovery)
      → fs.marker ≡ absent
      → (reconcile_under_lock sv js fs now running exe stat r rec).1 ≡ proceed
  unfolding reconcile_under_lock reconcile_loaded load load_bounded read_bounded
  absent-proceeds fs now running exe stat r rec none_there = rw none_there refl

  load_bounded-missing :
      (b : Bounded) (now : ℕ) → load_bounded sv js b now ≡ missing → b ≡ not_found
  unfolding load_bounded load_parsed
  load_bounded-missing not_found now h = refl
  load_bounded-missing read_error now h = absurd (ground arith)
  load_bounded-missing (contents t) now h = elim (Option-cases (js.from_slice t)) [
    | inl e ↦ absurd (ground arith)
    | inr (m, e) ↦ absurd (ground arith)
  ]

  read_bounded-not_found : (s : Slot) → read_bounded s ≡ not_found → s ≡ absent
  unfolding read_bounded
  read_bounded-not_found absent h = refl
  read_bounded-not_found unreadable h = absurd (ground arith)
  read_bounded-not_found (bytes t) h = absurd (ground arith)

  before-later :
      (d : ℤ) (first later : ℕ)
      → before (first + max_future_secs) d ≡ false
      → first + max_future_secs ≤ later
      → (before (later + max_future_secs) d ≡ false) × (before later d ≡ false)
  before-later (pos d) first later h le = ground arith
  before-later (negsuc d) first later h le = (refl, refl)

  load_parsed-later :
      (o : Option MarkerPayload) (m : MarkerPayload) (first later : ℕ)
      → load_parsed sv js o first ≡ valid m
      → first + max_future_secs ≤ later
      → (load_parsed sv js o later ≡ valid m) × (before later m.deadline_unix ≡ false)
  unfolding load_parsed
  load_parsed-later none m first later h le = absurd (ground arith)
  load_parsed-later (some p) m first later h le =
      elim (Bool-cases (before (first + max_future_secs) p.deadline_unix)) [
        | inl far ↦ absurd (ground arith)
        | inr near ↦
            let (a, b) = before-later p.deadline_unix first later near le in
            let same : p ≡ m = ground arith in
            (
              ground arith,
              subst (λ (q : MarkerPayload). before later q.deadline_unix ≡ false) same b,
            )
      ]

  load_bounded-later :
      (b : Bounded) (m : MarkerPayload) (first later : ℕ)
      → load_bounded sv js b first ≡ valid m
      → first + max_future_secs ≤ later
      → (load_bounded sv js b later ≡ valid m) × (before later m.deadline_unix ≡ false)
  unfolding load_bounded
  load_bounded-later not_found m first later h le = absurd (ground arith)
  load_bounded-later read_error m first later h le = absurd (ground arith)
  load_bounded-later (contents t) m first later h le =
      load_parsed-later (js.from_slice t) m first later h le

  expired-proceeds :
      (fs : Files) (m : MarkerPayload) (now : ℕ) (running : Version) (exe : Text)
      (stat : Text → PathState) (r : Removable) (rec : Recovery)
      → load sv js fs.marker now ≡ valid m
      → before now m.deadline_unix ≡ false
      → (reconcile_under_lock sv js fs now running exe stat r rec).1 ≡ proceed
  unfolding reconcile_under_lock reconcile_loaded
  expired-proceeds fs m now running exe stat r rec loaded over = rw (loaded, over) refl

  closes_later :
      (l : LoadedMarker sv js) (fs fs' : Files) (first later : ℕ) (running : Version) (exe : Text)
      (stat : Text → PathState) (r : Removable) (rec : Recovery)
      → load sv js fs.marker first ≡ l
      → first + max_future_secs ≤ later
      → Left l fs'.marker fs.marker
      → (reconcile_under_lock sv js fs' later running exe stat r rec).1 ≡ proceed
  unfolding Left load
  closes_later missing fs fs' first later running exe stat r rec loaded le same =
      absent-proceeds fs' later running exe stat r rec
        (same ∙ read_bounded-not_found fs.marker (load_bounded-missing _ first loaded))
  closes_later corrupt fs fs' first later running exe stat r rec loaded le gone =
      absent-proceeds fs' later running exe stat r rec gone
  closes_later (valid m) fs fs' first later running exe stat r rec loaded le (inl gone) =
      absent-proceeds fs' later running exe stat r rec gone
  closes_later (valid m) fs fs' first later running exe stat r rec loaded le (inr same) =
      let (again, over) = load_bounded-later (read_bounded fs.marker) m first later loaded le in
      expired-proceeds fs' m later running exe stat r rec
        (subst (λ s. load_bounded sv js (read_bounded s) later ≡ valid m) (sym same) again) over

  -- Whatever the marker file holds, and whatever the first start does with it: a start at least the
  -- clamp of 24 hours later proceeds, provided that the marker file could be removed at the first.
  -- So no marker, forged, corrupt or orphaned, suppresses the heal and the rearm for good.
  pub suppression_ends :
      (fs : Files) (first later : ℕ) (running running' : Version) (exe exe' : Text)
      (stat stat' : Text → PathState) (r r' : Removable) (rec rec' : Recovery)
      → r.marker_ok ≡ true
      → first + max_future_secs ≤ later
      → (reconcile_under_lock sv js
          (reconcile_under_lock sv js fs first running exe stat r rec).0
          later
          running'
          exe'
          stat'
          r'
          rec').1
        ≡ proceed
  unfolding reconcile_under_lock
  suppression_ends fs first later running running' exe exe' stat stat' r r' rec rec' ok le =
      let fs' =
        (reconcile_loaded sv js (load sv js fs.marker first) fs first running exe stat r rec).0 in
      closes_later (load sv js fs.marker first) fs fs' first later running' exe' stat' r' rec' refl
        le (reconcile_loaded-Left (load sv js fs.marker first) fs first running exe stat r rec ok)
