-- ===== src/Desktop/Marker/Publish.antt =====
-- packages/accelerator/src-tauri/src/update_marker.rs: publishing a marker, and the cleanup behind an
-- update that failed after its marker was published.
pub mod Foreign
use aztec_accelerator.Prelude.{
  ℕ, ◌+◌, Bool, true, false, Option, none, some, List, [], ◌∷◌, if◌then◌else◌,
}
use aztec_accelerator.Prelude.Texts.{Text}
use aztec_accelerator.Prelude.Ints.{pos}
use aztec_accelerator.SemVer.{SemVer}
use aztec_accelerator.Desktop.Marker.{
  MarkerJson, MarkerPayload, Slot, absent, bytes, Files, Removable, Recovery, Action, read_intent,
  arm, disarm, remove_all, remove_file, is_live, load, marker_schema, deadline_secs,
}

pub data CreateErr : Type 0 where
  live not_published published_maybe : CreateErr

-- How the file system meets an attempt to create the marker: it opens the file unless there is one;
-- it fails to open it for another reason, and may leave something where nothing was; or it opens a
-- new file, and a later step fails and leaves something.
pub data CreateAnswer : Type 0 where
  creates : CreateAnswer
  open_fails : Slot → CreateAnswer
  write_fails : Slot → CreateAnswer

pub data CreateStep : Type 0 where
  created already_exists open_error after_create : CreateStep

create_absent : CreateAnswer → Text → Slot × CreateStep
create_absent creates t = (bytes t, created)
create_absent (open_fails leftover) t = (leftover, open_error)
create_absent (write_fails leftover) t = (leftover, after_create)

-- `CREATE_NEW`: where there is a file, it opens nothing.
pub try_create_exclusive : Slot → CreateAnswer → Text → Slot × CreateStep
unfolding create_absent
try_create_exclusive absent answer t = create_absent answer t
try_create_exclusive s (open_fails leftover) t = (s, open_error)
try_create_exclusive s creates t = (s, already_exists)
try_create_exclusive s (write_fails leftover) t = (s, already_exists)

-- What the file system answers to `create_new`: the directory, the two attempts, the removals, and
-- what another writer puts at the marker's path between the attempts.
pub record CreateEnv : Type 0 where
  pub dir_ok : Bool
  pub first : CreateAnswer
  pub second : CreateAnswer
  pub removable : Removable
  pub racer : Slot

-- `Result<(), CreateErr>`
abbrev pub Created : Type 0
Created = Option CreateErr

-- The reply to an attempt but for the first one's `AlreadyExists`.
settled : Files → CreateStep → Removable → Files × Created
unfolding remove_file
settled fs created r = (fs, none)
settled fs already_exists r = (fs, some live)
settled fs open_error r =
    (record fs { marker = remove_file fs.marker r.marker_ok }, some not_published)
settled fs after_create r = (fs, some published_maybe)

raced : Slot → Slot → Slot
raced absent racer = racer
raced s racer = s

second_attempt : Files → CreateEnv → Text → Files × Created
unfolding settled raced try_create_exclusive
second_attempt fs env t =
    let (slot, step) = try_create_exclusive (raced fs.marker env.racer) env.second t in
    settled (record fs { marker = slot }) step env.removable

module _ (sv : SemVer) (js : MarkerJson) where
  open sv use {Version, to_string}
  open js use {to_vec_pretty}

  -- MarkerPayload::new; the fresh UUID is an argument.
  unfoldable pub new_payload : Version → Text → Bool → Text → ℕ → MarkerPayload
  new_payload candidate path intent txn now = record {
    schema = marker_schema;
    txn = txn;
    candidate = to_string candidate;
    expected_install_path = path;
    intent_at_disarm = intent;
    deadline_unix = pos (now + deadline_secs);
  }

  -- A marker that is not live is cleared, and the creation is tried once more.
  replaced : Files → CreateEnv → Text → ℕ → Files × Created
  unfolding second_attempt
  replaced fs env t now =
      let (cleared, removed) = remove_all fs env.removable in
      if is_live sv js (load sv js fs.marker now) now
      then (fs, some live)
      else if removed
      then second_attempt cleared env t
      else (cleared, some not_published)

  first_attempt : Files → CreateEnv → Text → ℕ → Slot × CreateStep → Files × Created
  unfolding replaced settled
  first_attempt fs env t now (slot, already_exists) = replaced fs env t now
  first_attempt fs env t now (slot, created) =
      settled (record fs { marker = slot }) created env.removable
  first_attempt fs env t now (slot, open_error) =
      settled (record fs { marker = slot }) open_error env.removable
  first_attempt fs env t now (slot, after_create) =
      settled (record fs { marker = slot }) after_create env.removable

  create_serialized : Option Text → Files → CreateEnv → ℕ → Files × Created
  unfolding first_attempt try_create_exclusive
  create_serialized none fs env now = (fs, some not_published)
  create_serialized (some t) fs env now =
      if env.dir_ok
      then first_attempt fs env t now (try_create_exclusive fs.marker env.first t)
      else (fs, some not_published)

  unfoldable pub create_new : Files → MarkerPayload → ℕ → CreateEnv → Files × Created
  unfolding create_serialized
  create_new fs m now env = create_serialized (to_vec_pretty m) fs env now

-- `write_handoff`, where the write succeeds.
pub write_handoff : Files → Text → Files
write_handoff fs txn = record fs { handoff = bytes txn }

with_intent : Option Bool → Files → Removable → Bool → Files × List Action
with_intent none fs r confirmed = (fs, read_intent ∷ [])
with_intent (some true) fs r confirmed =
    let (cleared, removed) = remove_all fs r in
    if removed then (cleared, read_intent ∷ (arm ∷ [])) else (cleared, read_intent ∷ [])
with_intent (some false) fs r confirmed =
    if confirmed
    then ((remove_all fs r).0, read_intent ∷ (disarm ∷ []))
    else (fs, read_intent ∷ (disarm ∷ []))

-- `post_create_failure_cleanup`; it always tells its caller to defuse the guard, so the result is the
-- files and what was asked of recovery.
unfoldable pub post_create_failure_cleanup : Files → Removable → Recovery → Files × List Action
unfolding with_intent
post_create_failure_cleanup fs r rec = with_intent rec.intent_read fs r rec.disarm_confirmed
