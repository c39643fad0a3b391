-- ===== src/Config.antt =====
-- packages/accelerator/core/src/config.rs: the config file, its version, its migration and
-- its saves. `serde_json` is the parameter `ConfigJson`; the staged temporary file is left out, and
-- what the file system answers is in the arguments. The capability is a flag of what is loaded.
pub mod Commit
pub mod Origins
pub mod Sample
pub mod Saves
pub mod Tests
use aztec_accelerator.Prelude.{
  ℕ, ◌*◌, ◌/◌, ◌^◌, ◌-◌, ◌≡◌, Bool, true, false, not, Option, none, some, List, [], ◌∷◌, All, ltb,
  leb, ◌==◌, nat_eq, list_eq, if◌then◌else◌, is_some,
}
use aztec_accelerator.Prelude.Ints.{ℤ}
use aztec_accelerator.Prelude.Maps.{Map, lookup, insert, remove}
use aztec_accelerator.Prelude.Texts.{Text, codes}

pub data Speed : Type 0 where
  low light balanced high full : Speed

at_least_one : ℕ → ℕ
at_least_one n = if n == 0 then 1 else n

-- Speed::to_threads, on the number of processors
pub to_threads : Speed → ℕ → ℕ
unfolding at_least_one
to_threads low cpus = at_least_one (cpus / 4)
to_threads light cpus = at_least_one (cpus * 3 / 8)
to_threads balanced cpus = at_least_one (cpus / 2)
to_threads high cpus = at_least_one (cpus * 3 / 4)
to_threads full cpus = cpus

abbrev pub supported_version : ℕ
supported_version = 2

pub record AcceleratorConfig : Type 0 where
  pub config_version : ℕ
  pub https_enabled : Bool
  pub approved_origins : List Text
  pub speed : Speed
  pub auto_update : Option Bool
  pub auto_approve_localhost : Bool
  pub onboarding_version : ℕ
  pub presto_migration_dismissed : Bool
  pub last_rotation_prompt_at : Option ℤ

abbrev pub default_config : AcceleratorConfig
default_config = record {
  config_version = supported_version;
  https_enabled = false;
  approved_origins = [];
  speed = full;
  auto_update = none;
  auto_approve_localhost = false;
  onboarding_version = 0;
  presto_migration_dismissed = false;
  last_rotation_prompt_at = none;
}

abbrev pub version_key : Text
version_key = codes "config_version"

-- `serde_json` at the config. `stream` is what `deserialize_map` hands to its visitor up to the end of
-- the input: the keys in their order, with their values where these are `u64`; `none` is any error.
-- A value is `none` where it is no object.
pub record ConfigJson : Type 1 where
  pub Value : Type 0
  pub stream : Text → Option (List (Text × Option ℕ))
  pub from_str : Text → Option (Option (Map Text Value))
  pub config_from_str : Text → Option AcceleratorConfig
  pub as_bool : Value → Option Bool
  pub bool : Bool → Value
  pub from_value : Option (Map Text Value) → Option AcceleratorConfig
  pub to_string_pretty : AcceleratorConfig → Option Text
  -- A struct is written with its fields in their order, each once.
  pub stream-to_string_pretty :
      (c : AcceleratorConfig) {t : Text}
      → to_string_pretty c ≡ some t
      → (rest : List (Text × Option ℕ)) × (stream t
          ≡ some ((version_key, some c.config_version) ∷ rest))
        × All (λ (e : Text × Option ℕ). (e.0 == version_key) ≡ false) rest

-- `Result<String>` of reading the file
pub data ConfigFile : Type 0 where
  absent unreadable : ConfigFile
  contents : Text → ConfigFile

-- The value under the key, if there was none before.
version_entry : Option ℕ → Option ℕ → Option ℕ
version_entry (some _) value = none
version_entry none none = none
version_entry none (some n) = if leb n (2 ^ 32 - 1) then some n else none

-- `visit_map`
visit_entries : Option ℕ → List (Text × Option ℕ) → Option ℕ
unfolding version_entry
visit_entries none [] = some supported_version
visit_entries (some v) [] = some v
visit_entries version ((key, value) ∷ es) =
    let other = visit_entries version es in
    if key == version_key
    then elim (version_entry version value) [ none ↦ none | some n ↦ visit_entries (some n) es ]
    else other

visit_stream : Option (List (Text × Option ℕ)) → Option ℕ
unfolding visit_entries
visit_stream none = none
visit_stream (some es) = visit_entries none es

known : Option ℕ → Bool
known none = false
known (some v) = leb v supported_version

-- `LoadedConfig`: the config, and whether a capability to persist it was minted.
pub record LoadedConfig : Type 0 where
  pub config : AcceleratorConfig
  pub cap : Bool

read_only : AcceleratorConfig → LoadedConfig
read_only config = record { config = config; cap = false }

persistable : AcceleratorConfig → LoadedConfig
persistable config = record { config = config; cap = true }

or_default : Option AcceleratorConfig → AcceleratorConfig
or_default none = default_config
or_default (some c) = c

loaded_of : Option AcceleratorConfig → LoadedConfig
unfolding read_only persistable
loaded_of none = read_only default_config
loaded_of (some c) = persistable (record c { config_version = supported_version })

module _ (js : ConfigJson) where
  open js use {
    Value, stream, from_str, config_from_str, as_bool, bool, from_value, to_string_pretty,
  }

  unfoldable pub probe_config_version : Text → Option ℕ
  unfolding visit_stream
  probe_config_version t = visit_stream (stream t)

  legacy_https : Option Value → Map Text Value → Map Text Value
  legacy_https none obj = obj
  legacy_https (some v) obj = elim (as_bool v) [
    | none ↦ obj
    | some legacy ↦ insert (codes "https_enabled") (bool legacy) obj
  ]

  migrate_object : Map Text Value → Map Text Value
  unfolding legacy_https
  migrate_object obj = remove (codes "safari_support") (
      if is_some (lookup (codes "https_enabled") obj)
      then obj
      else legacy_https (lookup (codes "safari_support") obj) obj)

  migrate_value : Option (Map Text Value) → Option (Map Text Value)
  unfolding migrate_object
  migrate_value none = none
  migrate_value (some obj) = some (migrate_object obj)

  load_value : Option (Option (Map Text Value)) → LoadedConfig
  unfolding migrate_value loaded_of read_only
  load_value none = read_only default_config
  load_value (some value) = loaded_of (from_value (migrate_value value))

  load_probed : Option ℕ → Text → LoadedConfig
  unfolding load_value read_only or_default
  load_probed none t = read_only default_config
  load_probed (some v) t =
      if ltb supported_version v
      then read_only (or_default (config_from_str t))
      else load_value (from_str t)

  unfoldable pub load_with_cap_from : ConfigFile → LoadedConfig
  unfolding load_probed persistable read_only
  load_with_cap_from absent = persistable default_config
  load_with_cap_from unreadable = read_only default_config
  load_with_cap_from (contents t) = load_probed (probe_config_version t) t

  unfoldable pub version_is_overwritable : ConfigFile → Bool
  unfolding known probe_config_version
  version_is_overwritable absent = true
  version_is_overwritable unreadable = false
  version_is_overwritable (contents t) = known (probe_config_version t)

  -- `save_to`, under the write lock; `staged` says that the directory, the lock and the temporary file
  -- could be made, `renames` that the last step works. `true` is `Ok(())`.
  save_json : Option Text → ConfigFile → Bool → Bool → ConfigFile × Bool
  unfolding version_is_overwritable
  save_json none file staged renames = (file, false)
  save_json (some json) file staged renames =
      if not staged
      then (file, false)
      else if not (version_is_overwritable file)
      then (file, false)
      else if renames
      then (contents json, true)
      else (file, false)

  unfoldable pub save_to : AcceleratorConfig → ConfigFile → Bool → Bool → ConfigFile × Bool
  unfolding save_json
  save_to config file staged renames = save_json (to_string_pretty config) file staged renames

  -- The config in the process, and the file.
  pub record Store : Type 0 where
    pub memory : AcceleratorConfig
    pub file : ConfigFile

  saved_store : Store → AcceleratorConfig → ConfigFile × Bool → Store × Bool
  saved_store s candidate (file, true) = (record { memory = candidate; file = file }, true)
  saved_store s candidate (file, false) = (record s { file = file }, false)

  -- The candidate, and whether it has changed.
  unfoldable pub lock_mutate_save_to : Store → AcceleratorConfig × Bool → Bool → Bool → Store × Bool
  unfolding saved_store save_to
  lock_mutate_save_to s (candidate, changed) staged renames =
      if changed
      then saved_store s candidate (save_to candidate s.file staged renames)
      else (s, true)
