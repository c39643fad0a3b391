-- ===== src/Config/Sample.antt =====
-- A config format that meets the law of `ConfigJson`, for concrete runs: the version, and whether HTTPS is
-- enabled; the other fields have their defaults.
use aztec_accelerator.Prelude.{
  ℕ, ◌≡◌, sym, ap, arith, Bool, true, false, Option, none, some, List, [], ◌∷◌, All, ◌==◌, nat_eq,
  list_eq,
}
use aztec_accelerator.Prelude.Texts.{Text}
use aztec_accelerator.Config.{AcceleratorConfig, ConfigJson, default_config, version_key}

abbrev flag : Bool → ℕ
flag true = 1
flag false = 0

abbrev pub text_of : AcceleratorConfig → Text
text_of c = c.config_version ∷ (flag c.https_enabled ∷ [])

abbrev scan : Text → Option (List (Text × Option ℕ))
scan [] = none
scan (v ∷ _) = some ((version_key, some v) ∷ [])

abbrev read : Text → Option AcceleratorConfig
read (v ∷ (h ∷ [])) = some (record default_config { config_version = v; https_enabled = h == 1 })
read _ = none

pub scan-text_of :
    (c : AcceleratorConfig) {t : Text}
    → some (text_of c) ≡ some t
    → (rest : List (Text × Option ℕ)) × (scan t
        ≡ some ((version_key, some c.config_version) ∷ rest))
      × All (λ (e : Text × Option ℕ). (e.0 == version_key) ≡ false) rest
scan-text_of c {t} h = let same : text_of c ≡ t = ground arith in ([], sym (ap scan same), tt)

abbrev pub sample_json : ConfigJson
sample_json = record {
  Value = Bool;
  stream = scan;
  from_str = λ t. some none;
  config_from_str = read;
  as_bool = λ b. some b;
  bool = λ b. b;
  from_value = λ v. some default_config;
  to_string_pretty = λ c. some (text_of c);
  stream-to_string_pretty = scan-text_of;
}
