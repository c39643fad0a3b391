-- ===== src/Config/Saves.antt =====
-- One save of packages/accelerator/core/src/config.rs: when it answers Ok, and what it does to the config
-- in memory and to the file.
use aztec_accelerator.Prelude.{
  ◌≡◌, ◌↔◌, ◌⊎◌, Option-cases, inl, inr, refl, ap, Bool, true, false, ◌&&◌, Option, none, some,
  nat_eq, list_eq, Bool-cases, arith,
}
use aztec_accelerator.Prelude.Texts.{Text}
use aztec_accelerator.Config.{
  AcceleratorConfig, ConfigJson, ConfigFile, contents, version_is_overwritable, save_json, save_to,
  Store, saved_store, lock_mutate_save_to,
}

-- A change of the config, which says whether it has changed anything.
abbrev pub Change : Type 0
Change = AcceleratorConfig → AcceleratorConfig × Bool

-- One save, with what the file system answers.
pub record Save : Type 0 where
  pub change : Change
  pub staged : Bool
  pub renames : Bool

module _ (js : ConfigJson) where
  open js use {to_string_pretty, stream, stream-to_string_pretty}

  -- The config can be printed and staged, the file may be overwritten, and the rename goes well.
  abbrev pub CanWrite : AcceleratorConfig → ConfigFile → Bool → Bool → Type 0
  CanWrite c file staged renames =
      ((t : Text) × (to_string_pretty c ≡ some t))
      × (staged ≡ true)
      × (version_is_overwritable js file ≡ true)
      × (renames ≡ true)

  abbrev pub CanSave : Save → Store js → Type 0
  CanSave op s =
      ((op.change s.memory).1 ≡ false) ⊎ CanWrite (op.change s.memory).0 s.file op.staged op.renames

  -- The file is the text of the config in memory.
  abbrev pub Synced : Store js → Type 0
  Synced s = (t : Text) × (to_string_pretty s.memory ≡ some t) × (s.file ≡ contents t)

  -- A save writes the text of the config, over what it may overwrite; or it leaves the file.
  abbrev Saves : AcceleratorConfig → ConfigFile → ConfigFile × Bool → Type 0
  Saves c file (file', done) =
      (done ≡ true
        → ((t : Text) × (to_string_pretty c ≡ some t) × (file' ≡ contents t))
          × (version_is_overwritable js file ≡ true))
      × (done ≡ false → file' ≡ file)

  save_json-Saves :
      (c : AcceleratorConfig) (json : Option Text) (file : ConfigFile) (staged renames : Bool)
      → to_string_pretty c ≡ json
      → Saves c file (save_json js json file staged renames)
  unfolding save_json
  save_json-Saves c none file staged renames same = (λ h. absurd (ground (arith, h)), λ h. refl)
  save_json-Saves c (some t) file false renames same = (λ h. absurd (ground (arith, h)), λ h. refl)
  save_json-Saves c (some t) file true renames same =
      elim (Bool-cases (version_is_overwritable js file)) [
        | inr refused ↦ rw refused (λ h. absurd (ground (arith, h)), λ h. refl)
        | inl over ↦ elim (Bool-cases renames) [
          | inl r ↦ rw (over, r) (λ h. ((t, same, refl), refl), λ h. absurd (ground (arith, h)))
          | inr r ↦ rw (over, r) (λ h. absurd (ground (arith, h)), λ h. refl)
        ]
      ]

  -- What a save does to memory and file.
  abbrev Commits : Store js → AcceleratorConfig × Bool → Store js × Bool → Type 0
  Commits s (candidate, changed) (s', done) =
      ((done && changed) ≡ true
        → (s'.memory ≡ candidate) × Synced s' × (version_is_overwritable js s.file ≡ true))
      × ((done && changed) ≡ false → s' ≡ s)

  saved_store-Commits :
      (s : Store js) (c : AcceleratorConfig) (r : ConfigFile × Bool)
      → Saves c s.file r
      → Commits s (c, true) (saved_store js s c r)
  unfolding saved_store
  saved_store-Commits s c (file, true) (wrote, stayed) =
      let ((t, printed, at_path), over) = wrote refl in
      (λ h. (refl, (t, printed, at_path), over), λ h. absurd (ground (arith, h)))
  saved_store-Commits s c (file, false) (wrote, stayed) =
      (λ h. absurd (ground (arith, h)), λ h. ap (λ f. record s { file = f }) (stayed refl))

  pub save-Commits :
      (s : Store js) (p : AcceleratorConfig × Bool) (staged renames : Bool)
      → Commits s p (lock_mutate_save_to js s p staged renames)
  unfolding lock_mutate_save_to save_to
  save-Commits s (c, true) staged renames =
      saved_store-Commits s c (save_to js c s.file staged renames)
        (save_json-Saves c (to_string_pretty c) s.file staged renames refl)
  save-Commits s (c, false) staged renames = (λ h. absurd (ground (arith, h)), λ h. refl)

  save_to-CanWrite :
      (c : AcceleratorConfig) (file : ConfigFile) (staged renames : Bool)
      → ((save_to js c file staged renames).1 ≡ true) ↔ CanWrite c file staged renames
  unfolding save_to save_json
  save_to-CanWrite c file staged renames = elim (Option-cases (to_string_pretty c)) [
    | inl bad ↦ (λ h. absurd (ground arith), λ ((t, good), _, _, _). absurd (ground arith))
    | inr (t, good) ↦ (
      λ h. ((t, good), ground arith, ground arith, ground arith),
      λ (printed, s, o, r). ground arith,
    )
  ]

  saved_store-done :
      (s : Store js) (c : AcceleratorConfig) (r : ConfigFile × Bool)
      → (saved_store js s c r).1 ≡ r.1
  unfolding saved_store
  saved_store-done s c (file, true) = refl
  saved_store-done s c (file, false) = refl

  pub save-CanSave :
      (s : Store js) (op : Save)
      → ((lock_mutate_save_to js s (op.change s.memory) op.staged op.renames).1 ≡ true)
        ↔ CanSave op s
  unfolding lock_mutate_save_to
  save-CanSave s op =
      let c = (op.change s.memory).0 in
      let same = saved_store-done s c (save_to js c s.file op.staged op.renames) in
      let (sound, complete) = save_to-CanWrite c s.file op.staged op.renames in
      elim (Bool-cases (op.change s.memory).1) [
        | inl changed ↦ (
          λ h. inr (sound (ground (arith, same))),
          λ can. elim can [
            | inl unchanged ↦ absurd (ground arith)
            | inr writes ↦ let done = complete writes in ground (arith, same)
          ],
        )
        | inr unchanged ↦ (λ h. inl unchanged, λ can. ground arith)
      ]
