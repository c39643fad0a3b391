-- ===== src/Desktop/Marker/Window.antt =====
-- When the window of an update closes: the reconciliation at the start of
-- packages/accelerator/src-tauri/src/update_marker.rs.
use aztec_accelerator.Prelude.{
  ℕ, ◌≡◌, ◌↔◌, ◌⊎◌, inl, inr, refl, sym, subst, Bool, true, false, ◌||◌, Option, none, some, List,
  [], ◌∷◌, arith, nat_eq, list_eq, Bool-cases,
}
use aztec_accelerator.Prelude.Texts.{Text, text_eq_iff}
use aztec_accelerator.SemVer.{SemVer}
use aztec_accelerator.Desktop.Marker.{
  MarkerJson, MarkerPayload, Slot, absent, unreadable, bytes, Files, Removable, Recovery, Action,
  read_intent, arm, disarm, Decision, remove, suppress, proceed, PathState, proven_absent,
  unverifiable, canonical_path, remove_all, remove_file, is_absent, valid, load, before,
  removal_decision, read_token_nonce, with_expected, with_intent, finish, decided, reconcile_loaded,
  reconcile_under_lock, same_txn, at_expected,
}

-- The expected path is where the running program is, or it is proven absent.
abbrev pub AtPlace : PathState → Text → Type 0
AtPlace proven_absent exe_canon = Unit
AtPlace unverifiable exe_canon = ⊥
AtPlace (canonical_path c) exe_canon = c ≡ exe_canon

-- The intent can be read, and recovery confirms it.
abbrev pub Recovers : Option Bool → Recovery → Type 0
Recovers none rec = ⊥
Recovers (some true) rec = rec.arm_ok ≡ true
Recovers (some false) rec = rec.disarm_confirmed ≡ true

-- What is asked of recovery for an intent.
abbrev pub asked : Option Bool → List Action
asked none = read_intent ∷ []
asked (some true) = read_intent ∷ (arm ∷ [])
asked (some false) = read_intent ∷ (disarm ∷ [])

-- Nothing is left of the transaction.
abbrev pub AllGone : Files → Type 0
AllGone fs = (fs.marker ≡ absent) × (fs.handoff ≡ absent) × (fs.token ≡ absent)

remove_file-absent :
    (s : Slot) (removable : Bool)
    → (removable || is_absent s) ≡ true
    → remove_file s removable ≡ absent
unfolding remove_file is_absent
remove_file-absent absent removable h = ground arith
remove_file-absent unreadable removable h = ground arith
remove_file-absent (bytes t) removable h = ground arith

pub remove_all-AllGone :
    (fs : Files) (r : Removable) → (remove_all fs r).1 ≡ true → AllGone (remove_all fs r).0
unfolding remove_all
remove_all-AllGone fs r h = (
  remove_file-absent fs.marker r.marker_ok (ground arith),
  remove_file-absent fs.handoff r.handoff_ok (ground arith),
  remove_file-absent fs.token r.token_ok (ground arith),
)

same_txn_iff : (o : Option Text) (txn : Text) → (same_txn o txn ≡ true) ↔ (o ≡ some txn)
unfolding same_txn
same_txn_iff none txn = (λ h. absurd (ground arith), λ h. absurd (ground arith))
same_txn_iff (some t) txn = ground (arith, text_eq_iff t txn)

at_expected_iff : (c exe : Text) → (at_expected (some c) exe ≡ true) ↔ (c ≡ exe)
unfolding at_expected
at_expected_iff c exe = text_eq_iff c exe

module _ (sv : SemVer) (js : MarkerJson) where
  open sv use {Version, to_string}

  finish-proceeds :
      (p : Files × Bool) (actions : List Action)
      → ((finish sv js p actions).1 ≡ proceed) ↔ (p.1 ≡ true)
  unfolding finish
  finish-proceeds (fs, true) actions = (λ h. refl, λ h. refl)
  finish-proceeds (fs, false) actions = (λ h. absurd (ground arith), λ h. absurd (ground arith))

  finish-parts :
      (p : Files × Bool) (actions : List Action)
      → ((finish sv js p actions).0 ≡ p.0) × ((finish sv js p actions).2 ≡ actions)
  unfolding finish
  finish-parts (fs, true) actions = (refl, refl)
  finish-parts (fs, false) actions = (refl, refl)

  with_intent-proceeds :
      (intent : Option Bool) (fs : Files) (r : Removable) (rec : Recovery)
      → let (fs', outcome, actions) = with_intent sv js intent fs r rec in
        ((outcome ≡ proceed) ↔ (Recovers intent rec × ((remove_all fs r).1 ≡ true)))
        × (outcome ≡ proceed → fs' ≡ (remove_all fs r).0)
        × (actions ≡ asked intent)
  unfolding with_intent
  with_intent-proceeds none fs r rec =
      ((λ h. absurd (ground arith), λ h. elim h.0 [ ]), λ h. absurd (ground arith), refl)
  with_intent-proceeds (some true) fs r rec = elim (Bool-cases rec.arm_ok) [
    | inl armed ↦
        let (to, from) = finish-proceeds (remove_all fs r) (asked (some true)) in
        let (files, acts) = finish-parts (remove_all fs r) (asked (some true)) in
        rw armed ((λ h. (refl, to h), λ c. from c.1), λ h. files, acts)
    | inr failed ↦
        rw failed (
          (λ h. absurd (ground arith), λ c. absurd (ground arith)),
          λ h. absurd (ground arith),
          refl,
        )
  ]
  with_intent-proceeds (some false) fs r rec = elim (Bool-cases rec.disarm_confirmed) [
    | inl gone ↦
        let (to, from) = finish-proceeds (remove_all fs r) (asked (some false)) in
        let (files, acts) = finish-parts (remove_all fs r) (asked (some false)) in
        rw gone ((λ h. (refl, to h), λ c. from c.1), λ h. files, acts)
    | inr failed ↦
        rw failed (
          (λ h. absurd (ground arith), λ c. absurd (ground arith)),
          λ h. absurd (ground arith),
          refl,
        )
  ]

  removal_decision-remove :
      (m : MarkerPayload) (given : Option Text) (running : Version) (exe : Text)
      (expected : Option Text) (now : ℕ)
      → before now m.deadline_unix ≡ true
      → (removal_decision sv js m given running exe expected now ≡ suppress
          × (((same_txn given m.txn ≡ true)
                × (to_string running ≡ m.candidate)
                × (at_expected expected exe ≡ true))
              → ⊥))
        ⊎ (removal_decision sv js m given running exe expected now ≡ remove
            × (same_txn given m.txn ≡ true)
            × (to_string running ≡ m.candidate)
            × (at_expected expected exe ≡ true))
  unfolding removal_decision
  removal_decision-remove m given running exe expected now live =
      ground (arith, text_eq_iff (to_string running) m.candidate)

  -- What it takes to close a live window: the token of this very transaction, the candidate running,
  -- at the expected place, with recovery confirmed and the files removed.
  abbrev pub MayClose :
      Files → MarkerPayload → PathState → Version → Text → Removable → Recovery → Type 0
  MayClose fs m state running exe r rec =
      (read_token_nonce fs ≡ some m.txn)
      × (to_string running ≡ m.candidate)
      × AtPlace state exe
      × Recovers rec.intent_read rec
      × ((remove_all fs r).1 ≡ true)

  abbrev Decides :
      Option Decision
      → Files
      → MarkerPayload
      → PathState
      → Version
      → Text
      → Removable
      → Recovery
      → Type 0
  Decides d fs m state running exe r rec =
      let (fs', outcome, actions) = decided sv js d fs r rec in
      ((outcome ≡ proceed) ↔ MayClose fs m state running exe r rec)
      × (outcome ≡ proceed → (fs' ≡ (remove_all fs r).0) × (actions ≡ asked rec.intent_read))

  decided-Decides :
      (fs : Files) (m : MarkerPayload) (state : PathState) (running : Version) (exe : Text)
      (now : ℕ) (r : Removable) (rec : Recovery)
      → before now m.deadline_unix ≡ true
      → Decides (with_expected sv js fs m state running exe now) fs m state running exe r rec
  unfolding with_expected decided at_expected
  decided-Decides fs m unverifiable running exe now r rec live =
      ((λ h. absurd (ground arith), λ c. elim c.2 [ ]), λ h. absurd (ground arith))
  decided-Decides fs m proven_absent running exe now r rec live =
      let (token_to, token_from) = same_txn_iff (read_token_nonce fs) m.txn in
      elim (removal_decision-remove m (read_token_nonce fs) running exe none now live) [
        | inl (e, not_all) ↦ rw e (
          (λ h. absurd (ground arith), λ c. absurd (not_all (token_from c.0, c.1, refl))),
          λ h. absurd (ground arith),
        )
        | inr (e, token, version, place) ↦
            let ((to, from), files, acts) = with_intent-proceeds rec.intent_read fs r rec in
            rw e (
              (
                λ h. (token_to token, version, tt, (to h).0, (to h).1),
                λ c. let (a, b, p, q, gone) = c in from (q, gone),
              ),
              λ h. (files h, acts),
            )
      ]
  decided-Decides fs m (canonical_path c) running exe now r rec live =
      let (token_to, token_from) = same_txn_iff (read_token_nonce fs) m.txn in
      let (place_to, place_from) = at_expected_iff c exe in
      elim (removal_decision-remove m (read_token_nonce fs) running exe (some c) now live) [
        | inl (e, not_all) ↦ rw e (
          (
            λ h. absurd (ground arith),
            λ w. let (a, b, p, q, gone) = w in absurd (not_all (token_from a, b, place_from p)),
          ),
          λ h. absurd (ground arith),
        )
        | inr (e, token, version, place) ↦
            let ((to, from), files, acts) = with_intent-proceeds rec.intent_read fs r rec in
            rw e (
              (
                λ h. (token_to token, version, place_to place, (to h).0, (to h).1),
                λ w. let (a, b, p, q, gone) = w in from (q, gone),
              ),
              λ h. (files h, acts),
            )
      ]

  -- While the window is live a start proceeds exactly if the token of this transaction was handed back,
  -- the candidate is what runs, it runs from the expected place or that place is proven absent,
  -- crash recovery was brought to the current intent, and the three files could be removed; then
  -- they are gone, and nothing but that was asked of recovery.
  pub window_closes_exact :
      (fs : Files) (m : MarkerPayload) (now : ℕ) (running : Version) (exe : Text)
      (stat : Text → PathState) (r : Removable) (rec : Recovery)
      → load sv js fs.marker now ≡ valid m
      → before now m.deadline_unix ≡ true
      → let (fs', outcome, actions) = reconcile_under_lock sv js fs now running exe stat r rec in
        ((outcome ≡ proceed) ↔ MayClose fs m (stat m.expected_install_path) running exe r rec)
        × (outcome ≡ proceed → AllGone fs' × (actions ≡ asked rec.intent_read))
  unfolding reconcile_under_lock reconcile_loaded
  window_closes_exact fs m now running exe stat r rec loaded live =
      let ((to, from), done) =
        decided-Decides fs m (stat m.expected_install_path) running exe now r rec live in
      rw (loaded, live)
        (
          (to, from),
          λ h.
              let (files, acts) = done h in
              let (a, b, p, q, gone) = to h in
              (subst AllGone (sym files) (remove_all-AllGone fs r gone), acts),
        )
