-- ===== src/Desktop/Autostart/Heal/Converge.antt =====
-- Two heals of one entry, in packages/accelerator/src-tauri/src/autostart.rs, by different processes.
use aztec_accelerator.Prelude.{
  ◌≡◌, refl, sym, ap, ◌∙◌, Bool, true, false, some, is_some, length, ◌≤◌, arith,
}
use aztec_accelerator.Prelude.Texts.{Text}
use aztec_accelerator.Prelude.Utf8.{is_utf8}
use aztec_accelerator.Desktop.Autostart.Entry.{desktop_field, exec_key}
use aztec_accelerator.Desktop.Autostart.Store.{
  Artifact, holds, healthy, read_stored_target, max_artifact_bytes,
}
use aztec_accelerator.Desktop.Autostart.Store.Broken.{broken_program, holds-target}
use aztec_accelerator.Desktop.Autostart.Heal.{HealEnv, heal_if_broken_at}
use aztec_accelerator.Desktop.Autostart.Heal.Broken.{may_heal, Untouched, heal_exact}

may_heal-healthy :
    (a : Artifact) (desired p : Text) (e : Bool) (env : HealEnv)
    → read_stored_target env.paths a (some desired) ≡ healthy p e
    → may_heal a desired env ≡ false
may_heal-healthy a desired p e env h =
    let gone : is_some (broken_program (read_stored_target env.paths a (some desired))) ≡ false =
      rw h refl in
    ground arith

-- Racing heals agree: what one process has healed for its path, while that path is a program and the
-- entry can be read back, no other process rewrites, whatever it saw before it had the lock and
-- wherever it runs from; and the entry reads as healthy.
pub heal_not_stolen :
    (a : Artifact) (desired other out : Text) (env later : HealEnv)
    → may_heal a desired env ≡ true
    → (heal_if_broken_at a desired env).1 ≡ holds out
    → length out ≤ max_artifact_bytes
    → is_utf8 out ≡ true
    → later.paths.executable desired ≡ true
    → Untouched (holds out) (heal_if_broken_at (holds out) other later)
      × ((elsewhere : Bool) × (read_stored_target later.paths (holds out) (some other)
            ≡ healthy desired elsewhere))
heal_not_stolen a desired other out env later may wrote small utf8 there =
    let (heals, stays) = heal_exact a desired env in
    let (outcome, (ini, q, out', raw, same, field, program, hidden)) = heals may in
    let out_same : out' ≡ out =
      let held : holds out' ≡ holds out = sym same ∙ wrote in ground arith in
    let (elsewhere, target) =
      holds-target later.paths out q desired other small utf8
        (ap (λ t. desktop_field t exec_key) (sym out_same) ∙ field) program there in
    let (heals', stays') = heal_exact (holds out) other later in
    (
      stays' (may_heal-healthy (holds out) other desired elsewhere later target),
      (elsewhere, target),
    )
