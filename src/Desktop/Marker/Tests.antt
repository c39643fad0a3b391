-- ===== src/Desktop/Marker/Tests.antt =====
-- Runs of packages/accelerator/src-tauri/src/update_marker.rs: a window published at second 1000 for
-- the candidate 1.1, which the installer puts at its place.
use aztec_accelerator.Prelude.{
  ◌≤◌, ◌≡◌, ◌≢◌, ◌↔◌, refl, sym, true, false, none, some, arith, nat_eq, list_eq, length,
}
use aztec_accelerator.Prelude.Equality.{list_beq}
use aztec_accelerator.Prelude.Ints.{pos}
use aztec_accelerator.Prelude.Members.{In}
use aztec_accelerator.Prelude.Texts.{Text, codes}
use aztec_accelerator.SemVer.Sample.{sample}
use aztec_accelerator.Desktop.Marker.{
  MarkerPayload, Slot, absent, bytes, Files, Removable, Recovery, PathState, canonical_path, arm,
  proceed, load, reconcile_under_lock, live_marker_exists, is_live, max_read_bytes,
}
use aztec_accelerator.Desktop.Marker.Sample.{sample_json, encode}
use aztec_accelerator.Desktop.Marker.Window.{window_closes_exact, MayClose, AllGone, asked}
use aztec_accelerator.Desktop.Marker.Liveness.{suppression_ends}
use aztec_accelerator.Desktop.Marker.Publish.{
  CreateEnv, creates, open_fails, new_payload, create_new, not_published, live,
  post_create_failure_cleanup,
}
use aztec_accelerator.Desktop.Marker.Publish.Foreign.{
  cleanup_never_arms_into_window, live_marker_kept, created_is_live,
}

abbrev running : Text
running = codes "1.1"

abbrev place : Text
place = codes "C:/A.exe"

abbrev payload : MarkerPayload
payload = record {
  schema = 1;
  txn = codes "t1";
  candidate = codes "1.1";
  expected_install_path = place;
  intent_at_disarm = true;
  deadline_unix = pos 1900;
}

abbrev window : Files
window = record {
  marker = bytes (encode payload);
  handoff = bytes (codes "t1");
  token = bytes (codes "t1");
}

abbrev empty : Files
empty = record { marker = absent; handoff = absent; token = absent }

abbrev free : Removable
free = record { marker_ok = true; handoff_ok = true; token_ok = true }

abbrev wanted : Recovery
wanted = record { intent_read = some true; arm_ok = true; disarm_confirmed = true }

abbrev stat : Text → PathState
stat path = canonical_path path

abbrev quiet : CreateEnv
quiet = record {
  dir_ok = true;
  first = creates;
  second = creates;
  removable = free;
  racer = absent;
}

window_closes_exact_example :
    let (fs', outcome, actions) =
      reconcile_under_lock sample sample_json window 1100 running place stat free wanted in
    ((outcome ≡ proceed)
      ↔ MayClose sample sample_json window payload (stat place) running place free wanted)
    × (outcome ≡ proceed → AllGone fs' × (actions ≡ asked (some true)))
unfolding load list_beq
window_closes_exact_example =
    window_closes_exact sample sample_json window payload 1100 running place stat free wanted refl
      refl

suppression_ends_example :
    (reconcile_under_lock sample sample_json
      (reconcile_under_lock sample sample_json window 1100 (codes "1") place stat free wanted).0
      100000
      (codes "1")
      place
      stat
      free
      wanted).1
    ≡ proceed
suppression_ends_example =
    suppression_ends sample sample_json window 1100 100000 (codes "1") (codes "1") place place stat
      stat free free wanted wanted refl (omega arith)

cleanup_never_arms_into_window_example :
    let (fs', actions) = post_create_failure_cleanup window free wanted in
    (In arm actions → (wanted.intent_read ≡ some true) × AllGone fs')
    × (wanted.intent_read ≡ none → fs' ≡ window)
    × (wanted.intent_read ≡ some false → wanted.disarm_confirmed ≡ false → fs' ≡ window)
cleanup_never_arms_into_window_example = cleanup_never_arms_into_window window free wanted

live_marker_kept_example :
    (((s : Slot) → creates ≢ open_fails s)
      → create_new sample sample_json window payload 1100 quiet ≡ (window, some live))
    × ((s : Slot)
        → creates ≡ open_fails s
        → true ≡ true
        → ((create_new sample sample_json window payload 1100 quiet).0.marker ≡ absent)
          × ((create_new sample sample_json window payload 1100 quiet).1 ≡ some not_published))
unfolding live_marker_exists is_live load list_beq
live_marker_kept_example =
    live_marker_kept sample sample_json window payload 1100 quiet {t = encode payload} refl refl
      refl

small :
    (t : Text)
    → some (encode (new_payload sample sample_json running place true (codes "t1") 1000)) ≡ some t
    → length t ≤ max_read_bytes
unfolding new_payload
small t h =
    let same : encode (new_payload sample sample_json running place true (codes "t1") 1000) ≡ t =
      ground arith in
    rw (sym same) (omega arith)

created_is_live_example :
    let m = new_payload sample sample_json running place true (codes "t1") 1000 in
    live_marker_exists sample sample_json (bytes (encode m)) 1800 ≡ true
unfolding create_new new_payload
created_is_live_example =
    created_is_live sample sample_json empty
      (record empty {
        marker =
            bytes (encode (new_payload sample sample_json running place true (codes "t1") 1000));
      })
      running place (codes "t1") true 1000 1800 quiet refl small (omega arith) (omega arith)
