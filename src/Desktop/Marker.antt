-- ===== src/Desktop/Marker.antt =====
-- packages/accelerator/src-tauri/src/update_marker.rs: the marker of an update window. The three
-- files are values; `serde_json` is the parameter `MarkerJson`. The caller holds `autostart.lock`, so
-- each transaction is one step; what the file system answers is in the arguments. Times are `i64`
-- seconds: the clock gives none below 0, and the file may hold any deadline.
pub mod Publish
pub mod Window
pub mod Liveness
pub mod Tests
pub mod Sample
use aztec_accelerator.Prelude.{
  ℕ, ◌+◌, ◌*◌, ◌≡◌, Bool, true, false, not, ◌&&◌, ◌||◌, Option, none, some, List, [], ◌∷◌, ltb,
  length, ◌==◌, nat_eq, list_eq, if◌then◌else◌,
}
use aztec_accelerator.Prelude.Texts.{Text}
use aztec_accelerator.Prelude.Utf8.{is_utf8, trim}
use aztec_accelerator.Prelude.Ints.{ℤ, pos, negsuc}
use aztec_accelerator.SemVer.{SemVer}

abbrev pub deadline_secs : ℕ
deadline_secs = 15 * 60

abbrev pub max_future_secs : ℕ
max_future_secs = 24 * 60 * 60

abbrev pub max_read_bytes : ℕ
max_read_bytes = 64 * 1024

abbrev pub marker_schema : ℕ
marker_schema = 1

pub record MarkerPayload : Type 0 where
  pub schema : ℕ
  pub txn : Text
  pub candidate : Text
  pub expected_install_path : Text
  pub intent_at_disarm : Bool
  pub deadline_unix : ℤ

-- `serde_json` at `MarkerPayload`: the strict reader, and the writer.
pub record MarkerJson : Type 0 where
  pub from_slice : Text → Option MarkerPayload
  pub to_vec_pretty : MarkerPayload → Option Text
  pub from_slice-to_vec_pretty :
      (m : MarkerPayload) {t : Text} → to_vec_pretty m ≡ some t → from_slice t ≡ some m

pub data Slot : Type 0 where
  absent unreadable : Slot
  bytes : Text → Slot

-- `MarkerPaths`, with what is at each path.
pub record Files : Type 0 where
  pub marker : Slot
  pub handoff : Slot
  pub token : Slot

-- Can the file at each path be removed, if there is one?
pub record Removable : Type 0 where
  pub marker_ok : Bool
  pub handoff_ok : Bool
  pub token_ok : Bool

-- `Result<Option<Vec<u8>>, String>`
pub data Bounded : Type 0 where
  not_found read_error : Bounded
  contents : Text → Bounded

pub read_bounded : Slot → Bounded
read_bounded absent = not_found
read_bounded unreadable = read_error
read_bounded (bytes t) = if ltb max_read_bytes (length t) then read_error else contents t

-- now < deadline, at a time of the clock
abbrev pub before : ℕ → ℤ → Bool
before now (pos d) = ltb now d
before now (negsuc _) = false

is_absent : Slot → Bool
is_absent absent = true
is_absent _ = false

unfoldable pub remove_file : Slot → Bool → Slot
remove_file s removable = if removable then absent else s

-- `remove_all`: each of the three is tried; `true` is `Ok(())`.
unfoldable pub remove_all : Files → Removable → Files × Bool
unfolding remove_file is_absent
remove_all fs r = (
  record {
    marker = remove_file fs.marker r.marker_ok;
    handoff = remove_file fs.handoff r.handoff_ok;
    token = remove_file fs.token r.token_ok;
  },
  (r.marker_ok || is_absent fs.marker)
      && ((r.handoff_ok || is_absent fs.handoff) && (r.token_ok || is_absent fs.token)),
)

pub data Decision : Type 0 where
  remove suppress expire : Decision

pub data ReconcileOutcome : Type 0 where
  proceed suppressed : ReconcileOutcome

-- What a transaction asks of the autostart entry and of crash recovery, in its order.
pub data Action : Type 0 where
  read_intent arm disarm : Action

-- What the injected closures answer: `none` is an intent that cannot be read.
pub record Recovery : Type 0 where
  pub intent_read : Option Bool
  pub arm_ok : Bool
  pub disarm_confirmed : Bool

-- What `try_exists` and `canonicalize` say of a path.
pub data PathState : Type 0 where
  proven_absent unverifiable : PathState
  canonical_path : Text → PathState

same_txn : Option Text → Text → Bool
same_txn none txn = false
same_txn (some t) txn = t == txn

filled : Text → Option Text
filled [] = none
filled (c ∷ s) = some (c ∷ s)

read_nonce : Bounded → Option Text
unfolding filled
read_nonce (contents t) = if is_utf8 t then filled (trim t) else none
read_nonce _ = none

unfoldable pub read_token_nonce : Files → Option Text
unfolding read_nonce read_bounded
read_token_nonce fs = read_nonce (read_bounded fs.token)

-- The last two rules; the path is the canonical one, or `none` if it is proven absent.
at_expected : Option Text → Text → Bool
at_expected none exe_canon = true
at_expected (some expected) exe_canon = expected == exe_canon

module _ (sv : SemVer) (js : MarkerJson) where
  open sv use {Version, parse, to_string}
  open js use {from_slice, to_vec_pretty}

  pub data LoadedMarker : Type 0 where
    missing corrupt : LoadedMarker
    valid : MarkerPayload → LoadedMarker

  is_canonical : Option Version → Text → Bool
  is_canonical none s = false
  is_canonical (some v) s = to_string v == s

  load_parsed : Option MarkerPayload → ℕ → LoadedMarker
  load_parsed none now = corrupt
  load_parsed (some m) now =
      if not (m.schema == marker_schema)
      then corrupt
      else if not (is_canonical (parse m.candidate) m.candidate)
      then corrupt
      else if before (now + max_future_secs) m.deadline_unix
      then corrupt
      else valid m

  load_bounded : Bounded → ℕ → LoadedMarker
  load_bounded not_found now = missing
  load_bounded read_error now = corrupt
  load_bounded (contents t) now = load_parsed (from_slice t) now

  unfoldable pub load : Slot → ℕ → LoadedMarker
  unfolding load_bounded load_parsed is_canonical read_bounded
  load slot now = load_bounded (read_bounded slot) now

  unfoldable pub is_live : LoadedMarker → ℕ → Bool
  is_live (valid m) now = before now m.deadline_unix
  is_live _ now = false

  unfoldable pub live_marker_exists : Slot → ℕ → Bool
  unfolding is_live load
  live_marker_exists slot now = is_live (load slot now) now

  unfoldable pub removal_decision :
      MarkerPayload → Option Text → Version → Text → Option Text → ℕ → Decision
  unfolding same_txn at_expected
  removal_decision m token_nonce running exe_canon expected_canon now =
      if not (before now m.deadline_unix)
      then expire
      else if not (same_txn token_nonce m.txn)
      then suppress
      else if not (to_string running == m.candidate)
      then suppress
      else if at_expected expected_canon exe_canon
      then remove
      else suppress

  -- Behind the load: the rest of the transaction on a live marker.
  with_expected : Files → MarkerPayload → PathState → Version → Text → ℕ → Option Decision
  with_expected fs m proven_absent running exe_canon now =
      some (removal_decision m (read_token_nonce fs) running exe_canon none now)
  with_expected fs m (canonical_path c) running exe_canon now =
      some (removal_decision m (read_token_nonce fs) running exe_canon (some c) now)
  with_expected fs m unverifiable running exe_canon now = none

  finish : Files × Bool → List Action → Files × ReconcileOutcome × List Action
  finish (fs, true) actions = (fs, proceed, actions)
  finish (fs, false) actions = (fs, suppressed, actions)

  -- Recovery is reconciled with the current intent first, and the files are removed behind it.
  with_intent : Option Bool → Files → Removable → Recovery → Files × ReconcileOutcome × List Action
  unfolding finish
  with_intent none fs r rec = (fs, suppressed, read_intent ∷ [])
  with_intent (some true) fs r rec =
      if rec.arm_ok
      then finish (remove_all fs r) (read_intent ∷ (arm ∷ []))
      else (fs, suppressed, read_intent ∷ (arm ∷ []))
  with_intent (some false) fs r rec =
      if rec.disarm_confirmed
      then finish (remove_all fs r) (read_intent ∷ (disarm ∷ []))
      else (fs, suppressed, read_intent ∷ (disarm ∷ []))

  decided : Option Decision → Files → Removable → Recovery → Files × ReconcileOutcome × List Action
  unfolding with_intent
  decided none fs r rec = (fs, suppressed, [])
  decided (some suppress) fs r rec = (fs, suppressed, [])
  decided (some expire) fs r rec = ((remove_all fs r).0, proceed, [])
  decided (some remove) fs r rec = with_intent rec.intent_read fs r rec

  reconcile_loaded :
      LoadedMarker
      → Files
      → ℕ
      → Version
      → Text
      → (Text → PathState)
      → Removable
      → Recovery
      → Files × ReconcileOutcome × List Action
  unfolding decided with_expected
  reconcile_loaded missing fs now running exe_canon stat r rec = (fs, proceed, [])
  reconcile_loaded corrupt fs now running exe_canon stat r rec =
      ((remove_all fs r).0, suppressed, [])
  reconcile_loaded (valid m) fs now running exe_canon stat r rec =
      if not (before now m.deadline_unix)
      then ((remove_all fs r).0, proceed, [])
      else decided (with_expected fs m (stat m.expected_install_path) running exe_canon now) fs r
          rec

  unfoldable pub reconcile_under_lock :
      Files
      → ℕ
      → Version
      → Text
      → (Text → PathState)
      → Removable
      → Recovery
      → Files × ReconcileOutcome × List Action
  unfolding reconcile_loaded load
  reconcile_under_lock fs now running exe_canon stat r rec =
      reconcile_loaded (load fs.marker now) fs now running exe_canon stat r rec
