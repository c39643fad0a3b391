-- ===== src/Config/Tests.antt =====
-- Runs of packages/accelerator/core/src/config.rs: two saves, of which the second cannot be renamed, and a
-- file of a later version.
use aztec_accelerator.Prelude.{◌≡◌, refl, arith, true, false, List, [], ◌∷◌, nat_eq, list_eq}
use aztec_accelerator.Prelude.Equality.{list_beq}
use aztec_accelerator.Prelude.Texts.{Text}
use aztec_accelerator.Config.{
  default_config, contents, Store, load_with_cap_from, probe_config_version,
}
use aztec_accelerator.Config.Sample.{sample_json, text_of}
use aztec_accelerator.Config.Saves.{Change, Save, Synced}
use aztec_accelerator.Config.Commit.{
  spec_run, run_saves, answers, Answered, saves_refine, unknown_version_kept,
}

abbrev enable_https : Change
enable_https c = (record c { https_enabled = true }, true)

abbrev ops : List Save
ops =
    (record { change = enable_https; staged = true; renames = true })
    ∷ ((record { change = λ c. (default_config, true); staged = true; renames = false }) ∷ [])

abbrev start : Store sample_json
start = record { memory = default_config; file = contents (text_of default_config) }

saves_refine_example :
    ((run_saves sample_json ops start).memory
      ≡ spec_run (answers sample_json ops start) default_config)
    × Synced sample_json (run_saves sample_json ops start)
    × Answered sample_json ops start
saves_refine_example = saves_refine sample_json ops start (text_of default_config, refl, refl)

abbrev later : Text
later = 3 ∷ (1 ∷ [])

abbrev behind : Store sample_json
behind = record { memory = default_config; file = contents later }

unknown_version_kept_example :
    ((run_saves sample_json ops behind).file ≡ contents later)
    × ((run_saves sample_json ops behind).memory ≡ default_config)
    × ((load_with_cap_from sample_json (contents later)).cap ≡ false)
unfolding probe_config_version list_beq
unknown_version_kept_example = unknown_version_kept sample_json ops behind later refl (omega arith)
