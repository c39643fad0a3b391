-- ===== src/Desktop/Autostart/Store/Writes.antt =====
-- What enabling writes, in packages/accelerator/src-tauri/src/autostart.rs, and what undoing it restores.
use aztec_accelerator.Prelude.{
  ◌≡◌, ◌≢◌, refl, sym, Bool, true, false, Option, none, some, Bool-cases, arith, ltb, length, inl,
  inr, [],
}
use aztec_accelerator.Prelude.Texts.{Text}
use aztec_accelerator.Prelude.Utf8.{is_utf8}
use aztec_accelerator.Prelude.Results.{Result, ok, err}
use aztec_accelerator.Desktop.Autostart.Exec.{desktop_quote, desktop_exec_program}
use aztec_accelerator.Desktop.Autostart.Exec.RoundTrip.{desktop_exec_program-desktop_quote}
use aztec_accelerator.Desktop.Autostart.Entry.{desktop_set_exec, desktop_render_fresh}
use aztec_accelerator.Desktop.Autostart.Store.{
  Artifact, gone, unreadable, holds, StoreErr, app_name, read_raw, shown, write_artifact,
  enable_raw, enable_quoted, enable_write, restore, remove_entry, autostart_path_is_safe,
  max_artifact_bytes,
}
use aztec_accelerator.Desktop.Autostart.Store.Broken.{safe-quoted}
use aztec_accelerator.Desktop.Autostart.Store.Shown.{Starts, fresh-Starts, shown-Starts}

-- The file holds an entry that starts the path, and is not hidden.
abbrev pub StartsAt : Artifact → Text → Type 0
StartsAt a path =
    (out q : Text) × (a ≡ holds out) × (desktop_exec_program q ≡ ok path) × Starts out q

enable_raw-StartsAt :
    (a : Artifact) (path : Text) (raw : Result (Option Text) StoreErr) {q : Text} (write_ok : Bool)
    → desktop_quote path ≡ some q
    → path ≢ []
    → ((enable_raw a q raw write_ok).1 ≡ none → StartsAt (enable_raw a q raw write_ok).0 path)
      × ((enable_raw a q raw write_ok).1 ≢ none → (enable_raw a q raw write_ok).0 ≡ a)
unfolding enable_raw write_artifact
enable_raw-StartsAt a path (err e) write_ok quoted filled =
    (λ h. absurd (ground (arith, h)), λ h. refl)
enable_raw-StartsAt a path (ok none) false quoted filled =
    (λ h. absurd (ground (arith, h)), λ h. refl)
enable_raw-StartsAt a path (ok (some ini)) false quoted filled =
    (λ h. absurd (ground (arith, h)), λ h. refl)
enable_raw-StartsAt a path (ok none) {q} true quoted filled = (
  λ h. (
    desktop_render_fresh app_name q,
    q,
    refl,
    desktop_exec_program-desktop_quote path quoted filled,
    fresh-Starts path quoted,
  ),
  λ h. absurd (h refl),
)
enable_raw-StartsAt a path (ok (some ini)) {q} true quoted filled = (
  λ h. (
    shown (desktop_set_exec ini q) q,
    q,
    refl,
    desktop_exec_program-desktop_quote path quoted filled,
    shown-Starts path ini (desktop_set_exec ini q) quoted filled refl,
  ),
  λ h. absurd (h refl),
)

-- Enabling for a safe path writes an entry that starts it, or leaves the file as it is.
pub enable_write-StartsAt :
    (a : Artifact) (path : Text) (write_ok : Bool)
    → autostart_path_is_safe path ≡ true
    → ((enable_write a path write_ok).1 ≡ none → StartsAt (enable_write a path write_ok).0 path)
      × ((enable_write a path write_ok).1 ≢ none → (enable_write a path write_ok).0 ≡ a)
unfolding enable_write enable_quoted
enable_write-StartsAt a path write_ok safe =
    let (filled, (q, quoted)) = safe-quoted path safe in
    rw quoted (enable_raw-StartsAt a path (read_raw a) write_ok quoted filled)

-- A snapshot holds the file.
abbrev pub SnapshotOf : Option Text → Artifact → Type 0
SnapshotOf none a = a ≡ gone
SnapshotOf (some ini) a = a ≡ holds ini

pub read_raw-SnapshotOf :
    (a : Artifact) (prior : Option Text) → read_raw a ≡ ok prior → SnapshotOf prior a
unfolding read_raw
read_raw-SnapshotOf gone none h = refl
read_raw-SnapshotOf gone (some ini) h = absurd (ground arith)
read_raw-SnapshotOf unreadable prior h = absurd (ground arith)
read_raw-SnapshotOf (holds t) prior h = elim (Bool-cases (ltb max_artifact_bytes (length t))) [
  | inl big ↦ absurd (ground (arith, rw big at h))
  | inr fits ↦ elim (Bool-cases (is_utf8 t)) [
    | inr bad ↦ absurd (ground (arith, rw (fits, bad) at h))
    | inl good ↦
        let same : some t ≡ prior = ground (arith, rw (fits, good) at h) in rw (sym same) refl
  ]
]

-- Restoring a snapshot brings the file back, from whatever is there.
pub restore-SnapshotOf :
    (a now : Artifact) (prior : Option Text)
    → SnapshotOf prior a
    → restore now prior true ≡ (a, none)
unfolding restore remove_entry write_artifact
restore-SnapshotOf a gone none h = rw h refl
restore-SnapshotOf a unreadable none h = rw h refl
restore-SnapshotOf a (holds t) none h = rw h refl
restore-SnapshotOf a now (some ini) h = rw h refl
