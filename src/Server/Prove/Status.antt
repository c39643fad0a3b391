-- ===== src/Server/Prove/Status.antt =====
-- What the handler `prove` of packages/accelerator/core/src/server/prove.rs shows on the tray.
use aztec_accelerator.Prelude.{
  ◌≡◌, ◌≢◌, arith, ◌⊎◌, inl, inr, refl, sym, subst, ap, ◌∙◌, true, false, Option, none, some, List,
  [], ◌∷◌, ◌++◌, Option-cases, Bool-cases,
}
use aztec_accelerator.Prelude.Tests.{if-true, if-false}
use aztec_accelerator.Prelude.Texts.{Text}
use aztec_accelerator.SemVer.{SemVer}
use aztec_accelerator.Versions.Name.{AztecVersion}
use aztec_accelerator.Server.ContentLength.{reject_declared_oversize}
use aztec_accelerator.Server.Error.{ProveError, download_failed, payload_too_large}
use aztec_accelerator.Server.Resolve.{Resolution, ok, resolve_version}
use aztec_accelerator.Server.Prove.Inner.{Inner, statuses, statuses-append, with_resolution-Inner}
use aztec_accelerator.Server.Prove.{
  ServerStatus, idle, proving, downloading, entered, left, failed, status, body_read, Answers, Run,
  within, on_run, entered_run, authorized_run, with_resolution, with_status, with_inflight, prove,
  read_body, try_enter, BodyRead, complete, timed_out, too_large,
}

-- The request is turned away before it is resolved.
abbrev pub IsTurnedAway : Answers → Type 0
IsTurnedAway w =
    (w.authorized ≢ none)
    ⊎ (w.waiters_free ≡ false)
    ⊎ (reject_declared_oversize w.content_length ≡ true)
    ⊎ (w.body ≢ complete)

-- The request is resolved.
abbrev pub IsLetIn : Answers → Type 0
IsLetIn w =
    (w.authorized ≡ none)
    × (w.waiters_free ≡ true)
    × (reject_declared_oversize w.content_length ≡ false)
    × (w.body ≡ complete)

-- The resolution is a version that must be downloaded.
abbrev pub IsDownloadOf : AztecVersion → Resolution → Type 0
IsDownloadOf v res = res ≡ ok (record { version = some v; needs_download = true })

-- What a request that is let in shows.
abbrev pub ShownInside : Answers → Resolution → Run → Type 0
ShownInside w res r =
    (((v : AztecVersion) → ¬ IsDownloadOf v res) × (statuses r.0 ≡ proving ∷ (idle ∷ [])))
    ⊎ ((v : AztecVersion) × IsDownloadOf v res
        × (((w.download_ok ≡ true)
              × (statuses r.0 ≡ proving ∷ (downloading ∷ (proving ∷ (idle ∷ [])))))
            ⊎ ((w.download_ok ≡ false)
                × (statuses r.0 ≡ proving ∷ (downloading ∷ (idle ∷ [])))
                × (r.1 ≡ failed (download_failed v.raw)))))

-- The statuses of the whole handler.
abbrev pub Shown : Answers → Resolution → Run → Type 0
Shown w res r = (IsTurnedAway w × (statuses r.0 ≡ [])) ⊎ (IsLetIn w × ShownInside w res r)

ShownInside-Inner :
    (w : Answers) (res : Resolution) (r : Run)
    → Inner w res r
    → ShownInside w res (within (status proving) (status idle) r)
unfolding within Inner
ShownInside-Inner w res (es, reply) inner =
    let joined = statuses-append es (status idle ∷ []) in
    elim inner [
      | inl (other, quiet) ↦ inl (other, rw (joined, quiet) refl)
      | inr (v, same, inl (fetched, shown)) ↦ inr (v, same, inl (fetched, rw (joined, shown) refl))
      | inr (v, same, inr (lost, shown, reply_lost)) ↦
          inr (v, same, inr (lost, rw (joined, shown) refl, reply_lost))
    ]

append_nil : (ss : List ServerStatus) → ss ++ [] ≡ ss
append_nil [] = refl
append_nil (s ∷ ss) = ap (λ ts. s ∷ ts) (append_nil ss)

statuses-within : (r : Run) → statuses (within entered left r).0 ≡ statuses r.0
unfolding within
statuses-within (es, reply) = statuses-append es (left ∷ []) ∙ append_nil (statuses es)

-- A run with the same reply that shows the same.
same-Shown :
    (w : Answers) (res : Resolution) (r r' : Run)
    → statuses r'.0 ≡ statuses r.0
    → r'.1 ≡ r.1
    → Shown w res r
    → Shown w res r'
same-Shown w res r r' es reply (inl (away, quiet)) = inl (away, es ∙ quiet)
same-Shown w res r r' es reply (inr (let_in, inl (other, shown))) =
    inr (let_in, inl (other, es ∙ shown))
same-Shown w res r r' es reply (inr (let_in, inr (v, same, inl (fetched, shown)))) =
    inr (let_in, inr (v, same, inl (fetched, es ∙ shown)))
same-Shown w res r r' es reply (inr (let_in, inr (v, same, inr (lost, shown, failure)))) =
    inr (let_in, inr (v, same, inr (lost, es ∙ shown, reply ∙ failure)))

within-Shown :
    (w : Answers) (res : Resolution) (r : Run) → Shown w res r → Shown w res (within entered left r)
unfolding within
within-Shown w res (es, reply) shown =
    same-Shown w res (es, reply) (within entered left (es, reply)) (statuses-within (es, reply))
      refl shown

read_body-complete : (b : BodyRead) → (b ≡ complete) ⊎ ((b ≢ complete) × (read_body b ≢ none))
unfolding read_body
read_body-complete complete = inl refl
read_body-complete timed_out = inr (λ e. ground (arith, e), λ e. ground (arith, e))
read_body-complete too_large = inr (λ e. ground (arith, e), λ e. ground (arith, e))

module _ (sv : SemVer) (bundled_version : Option Text) where
  abbrev resolution : Answers → Resolution
  resolution w = resolve_version sv bundled_version w.requested w.cached_ok

  oversize-form :
      (w : Answers)
      → reject_declared_oversize w.content_length ≡ true
      → with_inflight sv bundled_version w ≡ ([], failed payload_too_large)
  unfolding with_inflight
  oversize-form w over = rw over refl

  broken-form :
      (w : Answers) (e : ProveError)
      → reject_declared_oversize w.content_length ≡ false
      → read_body w.body ≡ some e
      → with_inflight sv bundled_version w ≡ ([], failed e)
  unfolding with_inflight
  broken-form w e under bad = rw (under, bad) refl

  whole-form :
      (w : Answers)
      → reject_declared_oversize w.content_length ≡ false
      → read_body w.body ≡ none
      → with_inflight sv bundled_version w
        ≡ on_run (λ rest. body_read ∷ rest) (with_status sv bundled_version w)
  unfolding with_inflight
  whole-form w under good = rw (under, good) refl

  with_status-Shown :
      (w : Answers)
      → IsLetIn w
      → Shown w
          (resolution w)
          (on_run (λ rest. body_read ∷ rest) (with_status sv bundled_version w))
  unfolding with_status on_run
  with_status-Shown w let_in = inr (
    let_in,
    ShownInside-Inner w (resolution w) (with_resolution w (resolution w))
        (with_resolution-Inner w (resolution w)),
  )

  with_inflight-Shown :
      (w : Answers)
      → w.authorized ≡ none
      → w.waiters_free ≡ true
      → Shown w (resolution w) (with_inflight sv bundled_version w)
  unfolding read_body
  with_inflight-Shown w let_by free =
      elim (Bool-cases (reject_declared_oversize w.content_length)) [
        | inl over ↦
            subst (Shown w (resolution w)) (sym (oversize-form w over))
              (inl (inr (inr (inl over)), refl))
        | inr under ↦ elim (read_body-complete w.body) [
          | inl whole ↦
              subst (Shown w (resolution w)) (sym (whole-form w under (ap read_body whole)))
                (with_status-Shown w (let_by, free, under, whole))
          | inr (broken, stopped) ↦ elim (Option-cases (read_body w.body)) [
            | inl e ↦ absurd (stopped e)
            | inr (e, bad) ↦
                subst (Shown w (resolution w)) (sym (broken-form w e under bad))
                  (inl (inr (inr (inr broken)), refl))
          ]
        ]
      ]

  entered_run-Shown :
      (w : Answers)
      → w.authorized ≡ none
      → Shown w (resolution w) (entered_run sv bundled_version w (try_enter w.waiters_free))
  unfolding entered_run try_enter
  entered_run-Shown w let_by = elim (Bool-cases w.waiters_free) [
    | inl free ↦
        let inside =
          within-Shown w (resolution w) (with_inflight sv bundled_version w)
            (with_inflight-Shown w let_by free) in
        subst (λ e. Shown w (resolution w) (entered_run sv bundled_version w e))
          (sym (if-true w.waiters_free none _ free)) inside
    | inr full ↦
        subst (λ e. Shown w (resolution w) (entered_run sv bundled_version w e))
          (sym (if-false w.waiters_free none _ full)) (inl (inr (inl full), refl))
  ]

  -- The tray shows nothing exactly where the request is turned away before it is resolved: not
  -- authorized, no slot to wait in, a declared length that is rejected, or a body that is not read
  -- as a whole. Every other request shows one of three sequences. If it is not resolved to a version
  -- that must be downloaded: proving and idle. If it is and the download succeeds: proving,
  -- downloading, proving and idle. If the download fails: proving, downloading and idle, and then the
  -- reply is that the download of that version failed.
  pub status_sequence :
      (w : Answers)
      → Shown w
          (resolve_version sv bundled_version w.requested w.cached_ok)
          (prove sv bundled_version w)
  unfolding prove authorized_run
  status_sequence w = elim (Option-cases w.authorized) [
    | inl let_by ↦
        subst (λ e. Shown w (resolution w) (authorized_run sv bundled_version w e)) (sym let_by)
          (entered_run-Shown w let_by)
    | inr (e, refused) ↦
        subst (λ o. Shown w (resolution w) (authorized_run sv bundled_version w o)) (sym refused)
          (inl (inl (λ q. ground (arith, q)), refl))
  ]
