-- ===== src/Server/Prove/Outcome.antt =====
-- When the handler `prove` of packages/accelerator/core/src/server/prove.rs answers with a proof.
use aztec_accelerator.Prelude.{
  ◌≡◌, ◌↔◌, inl, inr, refl, sym, subst, ◌∙◌, Bool, true, false, Option, none, some, is_some, arith,
  Option-cases, Bool-cases,
}
use aztec_accelerator.Prelude.Texts.{Text}
use aztec_accelerator.Leases.{Lease, acquire}
use aztec_accelerator.SemVer.{SemVer}
use aztec_accelerator.Versions.Name.{AztecVersion}
use aztec_accelerator.Server.ContentLength.{reject_declared_oversize}
use aztec_accelerator.Server.Resolve.{ResolvedVersion, Resolution, ok, err, resolve_version}
use aztec_accelerator.Server.Prove.{
  proof, Answers, BodyRead, complete, timed_out, too_large, within, on_run, with_permit, with_lease,
  leased_run, entered_run, authorized_run, download, with_version, with_resolution, with_status,
  with_inflight, prove, read_body, try_enter,
}

-- A bundled binary needs no lease.
abbrev pub granted : Answers → Option AztecVersion → Bool
granted w none = true
granted w (some v) = is_some (acquire v.raw w.registry).1

abbrev pub fetched : Answers → Option AztecVersion → Bool → Bool
fetched w (some _) true = w.download_ok
fetched w _ _ = true

abbrev pub Runs : Answers → Option AztecVersion → Type 0
Runs w v = (granted w v ≡ true) × (w.permit_open ≡ true) × (w.bb_ok ≡ true)

with_permit-proof :
    (w : Answers) (v : Option AztecVersion)
    → ((with_permit w v).1 ≡ proof) ↔ ((w.permit_open ≡ true) × (w.bb_ok ≡ true))
unfolding with_permit within
with_permit-proof w v = ground arith

leased_run-proof :
    (w : Answers) (v : AztecVersion) (a : Option Lease)
    → ((leased_run w v a).1 ≡ proof)
      ↔ ((is_some a ≡ true) × (w.permit_open ≡ true) × (w.bb_ok ≡ true))
unfolding leased_run within
leased_run-proof w v none = ground arith
leased_run-proof w v (some l) = ground (arith, with_permit-proof w (some v))

with_lease-proof : (w : Answers) (v : Option AztecVersion) → ((with_lease w v).1 ≡ proof) ↔ Runs w v
unfolding with_lease
with_lease-proof w none = ground (arith, with_permit-proof w none)
with_lease-proof w (some v) = leased_run-proof w v (acquire v.raw w.registry).1

with_version-proof :
    (w : Answers) (v : Option AztecVersion) (d : Bool)
    → ((with_version w v d).1 ≡ proof) ↔ ((fetched w v d ≡ true) × Runs w v)
unfolding with_version download on_run
with_version-proof w (some v) true = ground (arith, with_lease-proof w (some v))
with_version-proof w (some v) false = ground (arith, with_lease-proof w (some v))
with_version-proof w none d = ground (arith, with_lease-proof w none)

-- The resolution gives a version that can be run.
abbrev pub Served : Answers → Resolution → Type 0
Served w r =
    (rv : ResolvedVersion) × (r ≡ ok rv)
    × (fetched w rv.version rv.needs_download ≡ true)
    × Runs w rv.version

with_resolution-proof :
    (w : Answers) (r : Resolution) → ((with_resolution w r).1 ≡ proof) ↔ Served w r
unfolding with_resolution
with_resolution-proof w (err e) = (λ h. absurd (ground arith), λ s. absurd (ground arith))
with_resolution-proof w (ok rv) =
    let (to, from) = with_version-proof w rv.version rv.needs_download in
    (
      λ h. let (f, r) = to h in (rv, refl, f, r),
      λ s.
          let (rv', e, f, r) = s in
          let same : rv ≡ rv' = ground arith in
          from (
            subst (λ x. (fetched w x.version x.needs_download ≡ true) × Runs w x.version) (sym same)
              (f, r)),
    )

read_body-complete : (b : BodyRead) → (read_body b ≡ none) ↔ (b ≡ complete)
unfolding read_body
read_body-complete complete = (λ h. refl, λ h. refl)
read_body-complete timed_out = (λ h. absurd (ground arith), λ h. absurd (ground arith))
read_body-complete too_large = (λ h. absurd (ground arith), λ h. absurd (ground arith))

module _ (sv : SemVer) (bundled_version : Option Text) where
  resolution : Answers → Resolution
  resolution w = resolve_version sv bundled_version w.requested w.cached_ok

  with_inflight-proof :
      (w : Answers)
      → ((with_inflight sv bundled_version w).1 ≡ proof) ↔ (
          (reject_declared_oversize w.content_length ≡ false)
          × (w.body ≡ complete)
          × Served w (resolution w))
  unfolding with_inflight with_status on_run resolution within
  with_inflight-proof w = elim (Bool-cases (reject_declared_oversize w.content_length)) [
    | inl over ↦ (λ h. absurd (ground arith), λ s. absurd (ground arith))
    | inr under ↦ elim (Option-cases (read_body w.body)) [
      | inl whole ↦
          let (to, from) = with_resolution-proof w (resolution w) in
          let run : (with_inflight sv bundled_version w).1 ≡ (with_resolution w (resolution w)).1 =
            rw (under, whole) refl in
          (
            λ h. (under, (read_body-complete w.body).0 whole, to (sym run ∙ h)),
            λ s. let (a, b, served) = s in run ∙ from served,
          )
      | inr (e, broken) ↦
          (λ h. absurd (ground arith), λ s. absurd (ground (arith, (read_body-complete w.body).1)))
    ]
  ]

  -- The handler answers with a proof exactly if every gate lets the request through: it is authorized,
  -- an inflight slot is free, no declared length is refused, the body arrives whole, the version
  -- resolves, its download succeeds where it needs one, its lease is granted where it is not the
  -- bundled one, the service is not shutting down, and `bb` succeeds.
  pub prove_succeeds_exact :
      (w : Answers)
      → ((prove sv bundled_version w).1 ≡ proof) ↔ (
          (w.authorized ≡ none)
          × (w.waiters_free ≡ true)
          × (reject_declared_oversize w.content_length ≡ false)
          × (w.body ≡ complete)
          × Served w (resolve_version sv bundled_version w.requested w.cached_ok))
  unfolding prove authorized_run entered_run try_enter within resolution
  prove_succeeds_exact w = elim (Option-cases w.authorized) [
    | inr (e, refused) ↦ (λ h. absurd (ground arith), λ s. absurd (ground arith))
    | inl authorized ↦ elim (Bool-cases w.waiters_free) [
      | inr full ↦ (λ h. absurd (ground arith), λ s. absurd (ground arith))
      | inl free ↦
          let (to, from) = with_inflight-proof w in
          let run : (prove sv bundled_version w).1 ≡ (with_inflight sv bundled_version w).1 =
            rw (authorized, free) refl in
          (
            λ h. let (a, b, served) = to (sym run ∙ h) in (authorized, free, a, b, served),
            λ s. let (x, y, a, b, served) = s in run ∙ from (a, b, served),
          )
    ]
  ]
