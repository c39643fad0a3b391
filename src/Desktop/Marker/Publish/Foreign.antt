-- ===== src/Desktop/Marker/Publish/Foreign.antt =====
-- What publishing a marker, and the cleanup behind a failed update, do to the files of
-- packages/accelerator/src-tauri/src/update_marker.rs.
use aztec_accelerator.Prelude.{
  ℕ, ◌+◌, ◌≤◌, ◌<◌, ◌≡◌, ◌≢◌, inl, inr, refl, sym, ap, subst, ◌∙◌, Bool, true, false, Option, none,
  some, List, ltb, length, arith, nat_eq, list_eq, Bool-cases,
}
use aztec_accelerator.Prelude.Members.{In}
use aztec_accelerator.Prelude.Texts.{Text, text_eq_iff}
use aztec_accelerator.SemVer.{SemVer}
use aztec_accelerator.Desktop.Marker.{
  MarkerJson, MarkerPayload, Slot, absent, unreadable, bytes, Files, Removable, Recovery, Action,
  arm, remove_all, remove_file, load, load_parsed, load_bounded, is_canonical, read_bounded,
  is_live, live_marker_exists, max_read_bytes, deadline_secs,
}
use aztec_accelerator.Desktop.Marker.Publish.{
  CreateAnswer, creates, open_fails, write_fails, CreateStep, created, already_exists, open_error,
  after_create, CreateEnv, CreateErr, live, not_published, try_create_exclusive, create_absent,
  settled, raced, second_attempt, new_payload, replaced, first_attempt, create_serialized,
  create_new, with_intent, post_create_failure_cleanup,
}
use aztec_accelerator.Desktop.Marker.Window.{AllGone, remove_all-AllGone}

-- What the cleanup promises for an intent.
abbrev Cleaned : Option Bool → Bool → Files → Files × List Action → Type 0
Cleaned intent confirmed fs (fs', actions) =
    (In arm actions → (intent ≡ some true) × AllGone fs')
    × (intent ≡ none → fs' ≡ fs)
    × (intent ≡ some false → confirmed ≡ false → fs' ≡ fs)

with_intent-Cleaned :
    (intent : Option Bool) (fs : Files) (r : Removable) (confirmed : Bool)
    → Cleaned intent confirmed fs (with_intent intent fs r confirmed)
unfolding with_intent
with_intent-Cleaned none fs r confirmed =
    (λ h. absurd (ground (arith, h)), λ h. refl, λ h d. absurd (ground arith))
with_intent-Cleaned (some true) fs r confirmed = elim (Bool-cases (remove_all fs r).1) [
  | inl removed ↦ rw removed (
    λ h. (refl, remove_all-AllGone fs r removed),
    λ h. absurd (ground arith),
    λ h d. absurd (ground arith),
  )
  | inr stuck ↦
      rw stuck
        (λ h. absurd (ground (arith, h)), λ h. absurd (ground arith), λ h d. absurd (ground arith))
]
with_intent-Cleaned (some false) fs r confirmed = elim (Bool-cases confirmed) [
  | inl gone ↦
      rw gone
        (λ h. absurd (ground (arith, h)), λ h. absurd (ground arith), λ h d. absurd (ground arith))
  | inr unsure ↦
      rw unsure (λ h. absurd (ground (arith, h)), λ h. absurd (ground arith), λ h d. refl)
]

-- After an update that failed behind its marker, crash recovery is armed only if the intent is on and
-- nothing of the transaction is left; and where the intent cannot be read, or is off and the disarm
-- is not confirmed, the files are left for the next start to reconcile.
pub cleanup_never_arms_into_window :
    (fs : Files) (r : Removable) (rec : Recovery)
    → let (fs', actions) = post_create_failure_cleanup fs r rec in
      (In arm actions → (rec.intent_read ≡ some true) × AllGone fs')
      × (rec.intent_read ≡ none → fs' ≡ fs)
      × (rec.intent_read ≡ some false → rec.disarm_confirmed ≡ false → fs' ≡ fs)
unfolding post_create_failure_cleanup
cleanup_never_arms_into_window fs r rec =
    with_intent-Cleaned rec.intent_read fs r rec.disarm_confirmed

-- Where there is a file, the exclusive creation opens nothing.
try-present :
    (s : Slot) (answer : CreateAnswer) (t : Text)
    → s ≢ absent
    → ((left : Slot) → answer ≢ open_fails left)
    → try_create_exclusive s answer t ≡ (s, already_exists)
unfolding try_create_exclusive
try-present absent answer t there opens = absurd (there refl)
try-present s (open_fails left) t there opens = absurd (opens left refl)
try-present unreadable creates t there opens = refl
try-present unreadable (write_fails left) t there opens = refl
try-present (bytes b) creates t there opens = refl
try-present (bytes b) (write_fails left) t there opens = refl

try-open_fails :
    (s left : Slot) (t : Text)
    → s ≢ absent
    → try_create_exclusive s (open_fails left) t ≡ (s, open_error)
unfolding try_create_exclusive
try-open_fails absent left t there = absurd (there refl)
try-open_fails unreadable left t there = refl
try-open_fails (bytes b) left t there = refl

-- A creation that succeeds puts the text there.
try-created :
    (s : Slot) (answer : CreateAnswer) (t : Text)
    → (try_create_exclusive s answer t).1 ≡ created
    → (try_create_exclusive s answer t).0 ≡ bytes t
unfolding try_create_exclusive create_absent
try-created absent creates t h = refl
try-created absent (open_fails left) t h = absurd (ground arith)
try-created absent (write_fails left) t h = absurd (ground arith)
try-created unreadable creates t h = absurd (ground arith)
try-created unreadable (open_fails left) t h = absurd (ground arith)
try-created unreadable (write_fails left) t h = absurd (ground arith)
try-created (bytes b) creates t h = absurd (ground arith)
try-created (bytes b) (open_fails left) t h = absurd (ground arith)
try-created (bytes b) (write_fails left) t h = absurd (ground arith)

settled-created :
    (fs : Files) (step : CreateStep) (r : Removable)
    → (settled fs step r).1 ≡ none
    → (step ≡ created) × ((settled fs step r).0 ≡ fs)
unfolding settled
settled-created fs created r h = (refl, refl)
settled-created fs already_exists r h = absurd (ground arith)
settled-created fs open_error r h = absurd (ground arith)
settled-created fs after_create r h = absurd (ground arith)

second_attempt-created :
    (fs : Files) (env : CreateEnv) (t : Text)
    → (second_attempt fs env t).1 ≡ none
    → (second_attempt fs env t).0.marker ≡ bytes t
unfolding second_attempt
second_attempt-created fs env t h =
    let s = raced fs.marker env.racer in
    let (slot, step) = try_create_exclusive s env.second t in
    let (e, same) = settled-created (record fs { marker = slot }) step env.removable h in
    ap (λ (f : Files). f.marker) same ∙ try-created s env.second t e

module _ (sv : SemVer) (js : MarkerJson) where
  open sv use {Version, to_string, parse-to_string}
  open js use {to_vec_pretty, from_slice-to_vec_pretty}

  live-present : (s : Slot) (now : ℕ) → live_marker_exists sv js s now ≡ true → s ≢ absent
  unfolding live_marker_exists is_live load load_bounded read_bounded
  live-present s now alive gone = absurd (ground (arith, alive, rw gone at alive))

  replaced-live :
      (fs : Files) (env : CreateEnv) (t : Text) (now : ℕ)
      → live_marker_exists sv js fs.marker now ≡ true
      → first_attempt sv js fs env t now (fs.marker, already_exists) ≡ (fs, some live)
  unfolding first_attempt replaced live_marker_exists
  replaced-live fs env t now alive = rw alive refl

  -- A live marker is never replaced: `create_new` reports `Live` and touches no file, wherever the
  -- file system answers the exclusive creation by "already exists" for a file that exists, and the
  -- payload and the directory can be made. If it answers by another error, such as too many open
  -- files, the live marker of another process is deleted.
  pub live_marker_kept :
      (fs : Files) (m : MarkerPayload) (now : ℕ) (env : CreateEnv) {t : Text}
      → live_marker_exists sv js fs.marker now ≡ true
      → to_vec_pretty m ≡ some t
      → env.dir_ok ≡ true
      → (((s : Slot) → env.first ≢ open_fails s) → create_new sv js fs m now env ≡ (fs, some live))
        × ((s : Slot)
            → env.first ≡ open_fails s
            → env.removable.marker_ok ≡ true
            → ((create_new sv js fs m now env).0.marker ≡ absent)
              × ((create_new sv js fs m now env).1 ≡ some not_published))
  unfolding create_new create_serialized remove_file
  live_marker_kept fs m now env {t} alive body dir =
      let there = live-present fs.marker now alive in
      (
        λ opens.
            rw (body, dir, try-present fs.marker env.first t there opens)
              (replaced-live fs env t now alive),
        λ s fails removable.
            rw (body, dir, fails, try-open_fails fs.marker s t there) (rw removable refl, refl),
      )

  replaced-created :
      (fs : Files) (env : CreateEnv) (t : Text) (now : ℕ)
      → (replaced sv js fs env t now).1 ≡ none
      → (replaced sv js fs env t now).0.marker ≡ bytes t
  unfolding replaced
  replaced-created fs env t now h =
      elim (Bool-cases (is_live sv js (load sv js fs.marker now) now)) [
        | inl alive ↦ absurd (ground (arith, rw alive at h))
        | inr over ↦ elim (Bool-cases (remove_all fs env.removable).1) [
          | inl removed ↦
              rw (over, removed)
                (second_attempt-created (remove_all fs env.removable).0 env t
                  (rw (over, removed) at h))
          | inr stuck ↦ absurd (ground (arith, rw (over, stuck) at h))
        ]
      ]

  first_attempt-created :
      (fs : Files) (env : CreateEnv) (t : Text) (now : ℕ) (slot : Slot) (step : CreateStep)
      → (step ≡ created → slot ≡ bytes t)
      → (first_attempt sv js fs env t now (slot, step)).1 ≡ none
      → (first_attempt sv js fs env t now (slot, step)).0.marker ≡ bytes t
  unfolding first_attempt settled
  first_attempt-created fs env t now slot created wrote h = wrote refl
  first_attempt-created fs env t now slot already_exists wrote h = replaced-created fs env t now h
  first_attempt-created fs env t now slot open_error wrote h = absurd (ground arith)
  first_attempt-created fs env t now slot after_create wrote h = absurd (ground arith)

  create_serialized-created :
      (body : Option Text) (fs : Files) (env : CreateEnv) (now : ℕ)
      → (create_serialized sv js body fs env now).1 ≡ none
      → (t : Text) × (body ≡ some t)
        × ((create_serialized sv js body fs env now).0.marker ≡ bytes t)
  unfolding create_serialized
  create_serialized-created none fs env now h = absurd (ground arith)
  create_serialized-created (some t) fs env now h = elim (Bool-cases env.dir_ok) [
    | inr bad ↦ absurd (ground (arith, rw bad at h))
    | inl dir ↦
        let (slot, step) = try_create_exclusive fs.marker env.first t in
        (
          t,
          refl,
          rw dir (
              first_attempt-created fs env t now slot step (try-created fs.marker env.first t)
                (rw dir at h)),
        )
  ]

  load_parsed-new :
      (candidate : Version) (path txn : Text) (intent : Bool) (now later : ℕ)
      → now ≤ later
      → later < now + deadline_secs
      → is_live sv js
          (load_parsed sv js (some (new_payload sv js candidate path intent txn now)) later)
          later
        ≡ true
  unfolding load_parsed is_canonical is_live new_payload
  load_parsed-new candidate path txn intent now later le lt =
      ground
        (arith, parse-to_string candidate, text_eq_iff (to_string candidate) (to_string candidate))

  live_marker_exists-parsed :
      (m : MarkerPayload) (t : Text) (later : ℕ)
      → js.from_slice t ≡ some m
      → length t ≤ max_read_bytes
      → is_live sv js (load_parsed sv js (some m) later) later ≡ true
      → live_marker_exists sv js (bytes t) later ≡ true
  unfolding live_marker_exists load load_bounded read_bounded
  live_marker_exists-parsed m t later parsed small alive =
      let fits : ltb max_read_bytes (length t) ≡ false = ground arith in rw (fits, parsed) alive

  -- A marker that was created, of a text of at most 64 KiB, is live from then on until its deadline,
  -- for every process that looks.
  pub created_is_live :
      (fs fs' : Files) (candidate : Version) (path txn : Text) (intent : Bool) (now later : ℕ)
      (env : CreateEnv)
      → create_new sv js fs (new_payload sv js candidate path intent txn now) now env ≡ (fs', none)
      → ((t : Text)
          → to_vec_pretty (new_payload sv js candidate path intent txn now) ≡ some t
          → length t ≤ max_read_bytes)
      → now ≤ later
      → later < now + deadline_secs
      → live_marker_exists sv js fs'.marker later ≡ true
  unfolding create_new
  created_is_live fs fs' candidate path txn intent now later env made small le lt =
      let m = new_payload sv js candidate path intent txn now in
      let same : create_serialized sv js (to_vec_pretty m) fs env now ≡ (fs', none) = made in
      let (t, body, at_path) =
        create_serialized-created (to_vec_pretty m) fs env now
          (ap (λ (p : Files × Option CreateErr). p.1) same) in
      let there : fs'.marker ≡ bytes t =
        sym (ap (λ (p : Files × Option CreateErr). p.0.marker) same) ∙ at_path in
      subst (λ s. live_marker_exists sv js s later ≡ true) (sym there)
        (live_marker_exists-parsed m t later (from_slice-to_vec_pretty m body) (small t body)
          (load_parsed-new candidate path txn intent now later le lt))
