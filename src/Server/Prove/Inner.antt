-- ===== src/Server/Prove/Inner.antt =====
-- What the handler `prove` of packages/accelerator/core/src/server/prove.rs shows on the tray between
-- the first status and the last.
use aztec_accelerator.Prelude.{
  ◌≡◌, ◌≢◌, arith, ◌⊎◌, inl, inr, refl, ap, Bool, true, false, Option, none, some, List, [], ◌∷◌,
  ◌++◌, Bool-cases,
}
use aztec_accelerator.Leases.{Lease, acquire}
use aztec_accelerator.Versions.Name.{AztecVersion}
use aztec_accelerator.Server.Error.{download_failed}
use aztec_accelerator.Server.Resolve.{Resolution, ok, err}
use aztec_accelerator.Server.Prove.{
  ServerStatus, proving, downloading, Event, entered, left, permit_taken, permit_dropped, failed,
  status, body_read, downloaded, cleanup_spawned, leased, lease_dropped, proved, Answers, Run,
  within, on_run, with_permit, with_lease, leased_run, download, with_version, with_resolution,
}

-- The statuses that a trace shows.
abbrev pub statuses : List Event → List ServerStatus
statuses [] = []
statuses (status s ∷ es) = s ∷ statuses es
statuses (entered ∷ es) = statuses es
statuses (left ∷ es) = statuses es
statuses (permit_taken ∷ es) = statuses es
statuses (permit_dropped ∷ es) = statuses es
statuses (body_read ∷ es) = statuses es
statuses (downloaded _ ∷ es) = statuses es
statuses (cleanup_spawned _ ∷ es) = statuses es
statuses (leased _ ∷ es) = statuses es
statuses (lease_dropped _ ∷ es) = statuses es
statuses (proved _ ∷ es) = statuses es

pub statuses-append : (es fs : List Event) → statuses (es ++ fs) ≡ statuses es ++ statuses fs
statuses-append [] fs = refl
statuses-append (status s ∷ es) fs = ap (λ ss. s ∷ ss) (statuses-append es fs)
statuses-append (entered ∷ es) fs = statuses-append es fs
statuses-append (left ∷ es) fs = statuses-append es fs
statuses-append (permit_taken ∷ es) fs = statuses-append es fs
statuses-append (permit_dropped ∷ es) fs = statuses-append es fs
statuses-append (body_read ∷ es) fs = statuses-append es fs
statuses-append (downloaded _ ∷ es) fs = statuses-append es fs
statuses-append (cleanup_spawned _ ∷ es) fs = statuses-append es fs
statuses-append (leased _ ∷ es) fs = statuses-append es fs
statuses-append (lease_dropped _ ∷ es) fs = statuses-append es fs
statuses-append (proved _ ∷ es) fs = statuses-append es fs

with_permit-statuses : (w : Answers) (v : Option AztecVersion) → statuses (with_permit w v).0 ≡ []
unfolding with_permit within
with_permit-statuses w v = elim (Bool-cases w.permit_open) [
  | inl on ↦ rw on refl
  | inr off ↦ rw off refl
]

leased_run-statuses :
    (w : Answers) (v : AztecVersion) (a : Option Lease) → statuses (leased_run w v a).0 ≡ []
unfolding leased_run within
leased_run-statuses w v none = refl
leased_run-statuses w v (some l) =
    rw
      (
        statuses-append (with_permit w (some v)).0 (lease_dropped v.raw ∷ []),
        with_permit-statuses w (some v),
      )
      refl

with_lease-statuses : (w : Answers) (v : Option AztecVersion) → statuses (with_lease w v).0 ≡ []
unfolding with_lease
with_lease-statuses w none = with_permit-statuses w none
with_lease-statuses w (some v) = leased_run-statuses w v (acquire v.raw w.registry).1

abbrev chosen : AztecVersion → Resolution
chosen v = ok (record { version = some v; needs_download = true })

-- The statuses between the first and the last one, and the reply where a download fails.
unfoldable pub Inner : Answers → Resolution → Run → Type 0
Inner w res r =
    (((v : AztecVersion) → res ≢ chosen v) × (statuses r.0 ≡ []))
    ⊎ ((v : AztecVersion) × (res ≡ chosen v)
        × (((w.download_ok ≡ true) × (statuses r.0 ≡ downloading ∷ (proving ∷ [])))
            ⊎ ((w.download_ok ≡ false)
                × (statuses r.0 ≡ downloading ∷ [])
                × (r.1 ≡ failed (download_failed v.raw)))))

download-Inner : (w : Answers) (v : AztecVersion) → Inner w (chosen v) (download w v)
unfolding download on_run Inner
download-Inner w v = elim (Bool-cases w.download_ok) [
  | inl fetched ↦
      let shown : statuses (download w v).0 ≡ downloading ∷ (proving ∷ []) =
        rw fetched (ap (λ ss. downloading ∷ (proving ∷ ss)) (with_lease-statuses w (some v))) in
      inr (v, refl, inl (fetched, shown))
  | inr lost ↦ inr (v, refl, inr (lost, rw lost refl, rw lost refl))
]

with_version-Inner :
    (w : Answers) (v : Option AztecVersion) (d : Bool)
    → Inner w (ok (record { version = v; needs_download = d })) (with_version w v d)
unfolding with_version Inner
with_version-Inner w (some v) true = download-Inner w v
with_version-Inner w (some v) false = inl (λ u e. ground (arith, e), with_lease-statuses w (some v))
with_version-Inner w none d = inl (λ u e. ground (arith, e), with_lease-statuses w none)

pub with_resolution-Inner : (w : Answers) (r : Resolution) → Inner w r (with_resolution w r)
unfolding with_resolution Inner
with_resolution-Inner w (err e) = inl (λ u q. ground (arith, q), refl)
with_resolution-Inner w (ok rv) = with_version-Inner w rv.version rv.needs_download
