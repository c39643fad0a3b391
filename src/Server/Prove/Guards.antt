-- ===== src/Server/Prove/Guards.antt =====
-- The guards of the handler `prove` of packages/accelerator/core/src/server/prove.rs, as an automaton
-- that reads a trace: it stops at an event that happens without what it needs.
use aztec_accelerator.Prelude.{
  ◌≡◌, refl, ap, subst, inl, inr, ◌∙◌, Bool, true, false, not, ◌&&◌, Option, none, some, is_none,
  List, [], ◌∷◌, ◌++◌, ◌==◌, nat_eq, list_eq, if◌then◌else◌, arith, Option-cases, Bool-cases,
}
use aztec_accelerator.Prelude.Texts.{Text, text_eq_iff}
use aztec_accelerator.Leases.{Lease, acquire}
use aztec_accelerator.Server.Error.{ProveError}
use aztec_accelerator.SemVer.{SemVer}
use aztec_accelerator.Versions.Name.{AztecVersion}
use aztec_accelerator.Server.ContentLength.{reject_declared_oversize}
use aztec_accelerator.Server.Resolve.{Resolution, ok, err, resolve_version}
use aztec_accelerator.Server.Prove.{
  ServerStatus, idle, proving, Event, entered, left, permit_taken, permit_dropped, proof, status,
  body_read, downloaded, cleanup_spawned, leased, lease_dropped, proved, Answers, Run, within,
  on_run, name_of, with_permit, with_lease, leased_run, entered_run, authorized_run, download,
  with_version, with_resolution, with_status, with_inflight, prove, read_body, try_enter,
}

-- What one request holds, and whether the tray shows it as busy.
pub record Held : Type 0 where
  pub slot : Bool
  pub busy : Bool
  pub lease : Option Text
  pub permit : Bool

abbrev pub is_idle : ServerStatus → Bool
is_idle idle = true
is_idle _ = false

abbrev pub same_lease : Option Text → Option Text → Bool
same_lease none none = true
same_lease (some a) (some b) = a == b
same_lease _ _ = false

-- A guard is taken once and is dropped before those taken before it; the body is read and a binary
-- is downloaded without the prove permit; a lease is taken before the permit; and a binary runs only
-- with the inflight slot, the permit, and the lease of that very version.
pub step : Held → Event → Option Held
step h entered = if h.slot then none else some (record h { slot = true })
step h left =
    if h.slot && (not h.busy && (is_none h.lease && not h.permit))
    then some (record h { slot = false })
    else none
step h (status s) =
    if h.slot && (is_none h.lease && not h.permit)
    then some (record h { busy = not (is_idle s) })
    else none
step h body_read = if h.slot && not h.permit then some h else none
step h (downloaded v) = if h.slot && (h.busy && not h.permit) then some h else none
step h (cleanup_spawned v) = if h.slot && not h.permit then some h else none
step h (leased v) =
    if h.slot && (h.busy && (is_none h.lease && not h.permit))
    then some (record h { lease = some v })
    else none
step h (lease_dropped v) =
    if same_lease h.lease (some v) && not h.permit then some (record h { lease = none }) else none
step h permit_taken = if h.slot && not h.permit then some (record h { permit = true }) else none
step h permit_dropped = if h.permit then some (record h { permit = false }) else none
step h (proved v) =
    if h.slot && (h.busy && (h.permit && same_lease h.lease v)) then some h else none

pub steps : Held → List Event → Option Held
unfolding step
steps h [] = some h
steps h (e ∷ es) = elim (step h e) [ none ↦ none | some h' ↦ steps h' es ]

abbrev pub nothing : Held
nothing = record { slot = false; busy = false; lease = none; permit = false }

abbrev in_slot : Held
in_slot = record nothing { slot = true }

abbrev in_status : Held
in_status = record in_slot { busy = true }

abbrev in_lease : Option Text → Held
in_lease v = record in_status { lease = v }

-- A run that may happen with h held, and holds no more and no less behind it.
abbrev Keeps : Held → Run → Type 0
Keeps h r = (k : List Event) → steps h (r.0 ++ k) ≡ steps h k

append_nil : (xs : List Event) → xs ++ [] ≡ xs
append_nil [] = refl
append_nil (x ∷ xs) = rw (append_nil xs) refl

append_assoc : (xs ys zs : List Event) → (xs ++ ys) ++ zs ≡ xs ++ (ys ++ zs)
append_assoc [] ys zs = refl
append_assoc (x ∷ xs) ys zs = rw (append_assoc xs ys zs) refl

steps-step :
    (h h' : Held) (e : Event) (es : List Event)
    → step h e ≡ some h'
    → steps h (e ∷ es) ≡ steps h' es
unfolding steps
steps-step h h' e es t = ground (arith, t)

within-Keeps :
    (h h' : Held) (taken dropped : Event) (r : Run)
    → step h taken ≡ some h'
    → step h' dropped ≡ some h
    → Keeps h' r
    → Keeps h (within taken dropped r)
unfolding within
within-Keeps h h' taken dropped (events, reply) t d keeps k =
    steps-step h h' taken ((events ++ dropped ∷ []) ++ k) t
    ∙ (ap (steps h') (append_assoc events (dropped ∷ []) k)
        ∙ (keeps (dropped ∷ k) ∙ steps-step h' h dropped k d))

same_lease_refl : (l : Option Text) → same_lease l l ≡ true
same_lease_refl none = refl
same_lease_refl (some a) = ground (arith, text_eq_iff a a)

proved-step :
    (l : Option Text)
    → step (record (in_lease l) { permit = true }) (proved l)
      ≡ some (record (in_lease l) { permit = true })
unfolding step
proved-step l = ground (arith, same_lease_refl l)

lease_dropped-step : (v : Text) → step (in_lease (some v)) (lease_dropped v) ≡ some in_status
unfolding step
lease_dropped-step v = ground (arith, text_eq_iff v v)

with_permit-Keeps :
    (w : Answers) (version : Option AztecVersion)
    → Keeps (in_lease (name_of version)) (with_permit w version)
unfolding with_permit within step
with_permit-Keeps w version k = elim (Bool-cases w.permit_open) [
  | inl granted ↦
      let l = name_of version in
      let held : Held = record (in_lease l) { permit = true } in
      rw granted (
        within-Keeps (in_lease l) held permit_taken permit_dropped (proved l ∷ [], proof) refl refl
          (λ es. steps-step held held (proved l) es (proved-step l)) k)
  | inr closed ↦ rw closed refl
]

leased_run-Keeps :
    (w : Answers) (v : AztecVersion) (answer : Option Lease)
    → Keeps in_status (leased_run w v answer)
unfolding leased_run step
leased_run-Keeps w v none k = refl
leased_run-Keeps w v (some lease) k =
    within-Keeps in_status (in_lease (some v.raw)) (leased v.raw) (lease_dropped v.raw)
      (with_permit w (some v)) refl (lease_dropped-step v.raw) (with_permit-Keeps w (some v)) k

with_lease-Keeps :
    (w : Answers) (version : Option AztecVersion) → Keeps in_status (with_lease w version)
unfolding with_lease
with_lease-Keeps w none k = with_permit-Keeps w none k
with_lease-Keeps w (some v) k = leased_run-Keeps w v (acquire v.raw w.registry).1 k

download-Keeps : (w : Answers) (v : AztecVersion) → Keeps in_status (download w v)
unfolding download step steps on_run
download-Keeps w v k = elim (Bool-cases w.download_ok) [
  | inl fetched ↦ rw fetched (with_lease-Keeps w (some v) k)
  | inr lost ↦ rw lost refl
]

with_version-Keeps :
    (w : Answers) (version : Option AztecVersion) (d : Bool)
    → Keeps in_status (with_version w version d)
unfolding with_version
with_version-Keeps w (some v) true k = download-Keeps w v k
with_version-Keeps w (some v) false k = with_lease-Keeps w (some v) k
with_version-Keeps w none d k = with_lease-Keeps w none k

with_resolution-Keeps : (w : Answers) (r : Resolution) → Keeps in_status (with_resolution w r)
unfolding with_resolution
with_resolution-Keeps w (err e) k = refl
with_resolution-Keeps w (ok rv) k = with_version-Keeps w rv.version rv.needs_download k

module _ (sv : SemVer) (bundled_version : Option Text) where
  with_status-Keeps : (w : Answers) → Keeps in_slot (with_status sv bundled_version w)
  unfolding with_status within step
  with_status-Keeps w k =
      let r = resolve_version sv bundled_version w.requested w.cached_ok in
      within-Keeps in_slot in_status (status proving) (status idle) (with_resolution w r) refl refl
        (with_resolution-Keeps w r) k

  with_inflight-Keeps : (w : Answers) → Keeps in_slot (with_inflight sv bundled_version w)
  unfolding with_inflight on_run steps step
  with_inflight-Keeps w k = elim (Bool-cases (reject_declared_oversize w.content_length)) [
    | inl over ↦ rw over refl
    | inr within_cap ↦ elim (Option-cases (read_body w.body)) [
      | inl whole ↦ rw (within_cap, whole) (with_status-Keeps w k)
      | inr (e, broken) ↦ rw (within_cap, broken) refl
    ]
  ]

  entered_run-Keeps :
      (w : Answers) (e : Option ProveError) → Keeps nothing (entered_run sv bundled_version w e)
  unfolding entered_run step
  entered_run-Keeps w (some e) k = refl
  entered_run-Keeps w none k =
      within-Keeps nothing in_slot entered left (with_inflight sv bundled_version w) refl refl
        (with_inflight-Keeps w) k

  authorized_run-Keeps :
      (w : Answers) (e : Option ProveError) → Keeps nothing (authorized_run sv bundled_version w e)
  unfolding authorized_run
  authorized_run-Keeps w (some e) k = refl
  authorized_run-Keeps w none k = entered_run-Keeps w (try_enter w.waiters_free) k

  -- On every path, errors included, the handler drops what it took and leaves the tray idle; it never
  -- holds the prove permit while it reads a body or downloads a binary, it leases a version before it
  -- waits for the permit, and a binary runs only inside the inflight cap, with the one prove permit
  -- and, unless it is the bundled one, with the lease of that very version.
  pub prove_keeps_guards :
      (w : Answers) → steps nothing (prove sv bundled_version w).0 ≡ some nothing
  unfolding prove steps
  prove_keeps_guards w =
      subst (λ es. steps nothing es ≡ some nothing) (append_nil (prove sv bundled_version w).0)
        (authorized_run-Keeps w w.authorized [])
