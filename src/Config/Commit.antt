-- ===== src/Config/Commit.antt =====
-- Saves of the config of packages/accelerator/core/src/config.rs, one after the other: what they do to
-- the config in memory and to the file.
use aztec_accelerator.Prelude.{
  ℕ, ◌≡◌, ◌↔◌, ◌^◌, ◌-◌, inl, inr, refl, sym, subst, ap, ◌∙◌, Bool, true, false, ◌&&◌, Option, none,
  some, List, [], ◌∷◌, All, ltb, leb, ◌==◌, nat_eq, list_eq, if◌then◌else◌, Bool-cases, arith, ◌≤◌,
  ◌<◌,
}
use aztec_accelerator.Prelude.Tests.{if-true, if-false}
use aztec_accelerator.Prelude.Equality.{list_beq}
use aztec_accelerator.Prelude.Texts.{Text}
use aztec_accelerator.Config.{
  AcceleratorConfig, ConfigJson, contents, supported_version, version_key, version_entry,
  visit_entries, visit_stream, known, probe_config_version, load_with_cap_from, load_probed,
  read_only, version_is_overwritable, Store, lock_mutate_save_to,
}
use aztec_accelerator.Config.Saves.{Change, Save, Synced, CanSave, save-Commits, save-CanSave}

-- The version cannot be read, or it is a later one.
abbrev pub IsUnknown : Option ℕ → Type 0
IsUnknown none = Unit
IsUnknown (some v) = supported_version < v

-- The specification: a cell, which takes a change that is accepted.
abbrev pub spec_run : List (Change × Bool) → AcceleratorConfig → AcceleratorConfig
spec_run [] c = c
spec_run ((f, accepted) ∷ fs) c = spec_run fs (if accepted && (f c).1 then (f c).0 else c)

module _ (js : ConfigJson) where
  open js use {to_string_pretty, stream, stream-to_string_pretty}

  abbrev pub run_saves : List Save → Store js → Store js
  run_saves [] s = s
  run_saves (op ∷ ops) s =
      run_saves ops (lock_mutate_save_to js s (op.change s.memory) op.staged op.renames).0

  -- The changes, each with the answer of its save: `true` is Ok.
  abbrev pub answers : List Save → Store js → List (Change × Bool)
  answers [] s = []
  answers (op ∷ ops) s =
      let (s', done) = lock_mutate_save_to js s (op.change s.memory) op.staged op.renames in
      (op.change, done) ∷ answers ops s'

  -- Each save answers Ok exactly if it can be made where it comes.
  abbrev pub Answered : List Save → Store js → Type 0
  Answered [] s = Unit
  Answered (op ∷ ops) s =
      let (s', done) = lock_mutate_save_to js s (op.change s.memory) op.staged op.renames in
      ((done ≡ true) ↔ CanSave js op s) × Answered ops s'

  save-step :
      (s : Store js) (op : Save)
      → Synced js s
      → let (s', done) = lock_mutate_save_to js s (op.change s.memory) op.staged op.renames in
        Synced js s'
        × (s'.memory
            ≡ (if done && (op.change s.memory).1 then (op.change s.memory).0 else s.memory))
  save-step s op synced =
      let p = op.change s.memory in
      let (s', done) = lock_mutate_save_to js s p op.staged op.renames in
      let (commits, stays) = save-Commits js s p op.staged op.renames in
      elim (Bool-cases (done && p.1)) [
        | inl e ↦
            let (same, now, over) = commits e in
            (now, same ∙ sym (if-true (done && p.1) p.0 s.memory e))
        | inr e ↦
            let same = stays e in
            (
              subst (Synced js) (sym same) synced,
              ap (λ (x : Store js). x.memory) same ∙ sym (if-false (done && p.1) p.0 s.memory e),
            )
      ]

  run_saves-Answered : (ops : List Save) (s : Store js) → Answered ops s
  run_saves-Answered [] s = tt
  run_saves-Answered (op ∷ ops) s = (save-CanSave js s op, run_saves-Answered ops _)

  -- The saves implement a cell that each change is applied to as a whole or not at all: if memory and
  -- file agree at the beginning, then after any saves, whatever the file system answers to each, the
  -- memory is what the specification makes of the changes whose save answered Ok, and the file is its
  -- text. A save answers Ok exactly if it changes nothing, or the new config can be printed and
  -- staged, the file then at the path may be overwritten, and the rename goes well.
  pub saves_refine :
      (ops : List Save) (s : Store js)
      → Synced js s
      → ((run_saves ops s).memory ≡ spec_run (answers ops s) s.memory)
        × Synced js (run_saves ops s)
        × Answered ops s
  saves_refine [] s synced = (refl, synced, tt)
  saves_refine (op ∷ ops) s synced =
      let (s', done) = lock_mutate_save_to js s (op.change s.memory) op.staged op.renames in
      let (now, memory) = save-step s op synced in
      let (result, end, _) = saves_refine ops s' now in
      (result ∙ ap (spec_run (answers ops s')) memory, end, run_saves-Answered (op ∷ ops) s)

  load_probed-cap : (o : Option ℕ) (t : Text) → known o ≡ false → (load_probed js o t).cap ≡ false
  unfolding known load_probed read_only
  load_probed-cap none t h = refl
  load_probed-cap (some v) t h =
      let newer : ltb supported_version v ≡ true = ground arith in rw newer refl

  unknown-cap :
      (t : Text)
      → version_is_overwritable js (contents t) ≡ false
      → (load_with_cap_from js (contents t)).cap ≡ false
  unfolding load_with_cap_from version_is_overwritable
  unknown-cap t h = load_probed-cap (probe_config_version js t) t h

  -- A file that may not be overwritten.
  unwritable-kept :
      (ops : List Save) (s : Store js) (t : Text)
      → s.file ≡ contents t
      → version_is_overwritable js (contents t) ≡ false
      → ((run_saves ops s).file ≡ contents t)
        × ((run_saves ops s).memory ≡ s.memory)
        × ((load_with_cap_from js (contents t)).cap ≡ false)
  unwritable-kept [] s t at_path unknown = (at_path, refl, unknown-cap t unknown)
  unwritable-kept (op ∷ ops) s t at_path unknown =
      let p = op.change s.memory in
      let (s', done) = lock_mutate_save_to js s p op.staged op.renames in
      let (commits, stays) = save-Commits js s p op.staged op.renames in
      let same : s' ≡ s = elim (Bool-cases (done && p.1)) [
        | inl e ↦
            let (m, now, over) = commits e in
            absurd (ground (arith, sym over ∙ ap (version_is_overwritable js) at_path ∙ unknown))
        | inr e ↦ stays e
      ] in
      let (file, memory, cap) =
        unwritable-kept ops s' t (ap (λ (x : Store js). x.file) same ∙ at_path) unknown in
      (file, memory ∙ ap (λ (x : Store js). x.memory) same, cap)

  unknown-not_overwritable : (o : Option ℕ) → IsUnknown o → known o ≡ false
  unfolding known
  unknown-not_overwritable none h = refl
  unknown-not_overwritable (some v) h = ground arith

  -- A file whose version this build does not know is loaded without the capability to persist, and no
  -- saves ever replace it, whatever they change and whatever the file system answers; the memory then
  -- stays as it was, too.
  pub unknown_version_kept :
      (ops : List Save) (s : Store js) (t : Text)
      → s.file ≡ contents t
      → IsUnknown (probe_config_version js t)
      → ((run_saves ops s).file ≡ contents t)
        × ((run_saves ops s).memory ≡ s.memory)
        × ((load_with_cap_from js (contents t)).cap ≡ false)
  unfolding version_is_overwritable
  unknown_version_kept ops s t at_path unknown =
      unwritable-kept ops s t at_path (unknown-not_overwritable (probe_config_version js t) unknown)

visit-once :
    (v : ℕ) (es : List (Text × Option ℕ))
    → All (λ (e : Text × Option ℕ). (e.0 == version_key) ≡ false) es
    → visit_entries (some v) es ≡ some v
unfolding visit_entries
visit-once v [] h = refl
visit-once v ((key, value) ∷ es) (other, rest) = rw other (visit-once v es rest)

module _ (js : ConfigJson) where
  -- What a build saves it may save over: a config with a known version, once in the file, is probed as
  -- that version, so the next save is not refused for it.
  pub saved_overwritable :
      (c : AcceleratorConfig) (t : Text)
      → js.to_string_pretty c ≡ some t
      → c.config_version ≤ supported_version
      → version_is_overwritable js (contents t) ≡ true
  unfolding version_is_overwritable known probe_config_version visit_stream visit_entries
      version_entry list_beq
  saved_overwritable c t printed le =
      let (rest, streamed, others) = js.stream-to_string_pretty c printed in
      let fits : leb c.config_version (2 ^ 32 - 1) ≡ true = ground arith in
      let few : leb c.config_version supported_version ≡ true = ground arith in
      rw (streamed, fits, visit-once c.config_version rest others) few
