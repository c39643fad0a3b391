-- ===== src/Server/Auth.antt =====
-- packages/accelerator/core/src/server/auth.rs: `authorize_origin`. It waits for the user in its
-- middle, where other requests run, so it is two steps: `begin_authorize` up to the wait, and
-- `finish_authorize` from the answer on. `save_ok` says whether the config file could be written.
pub mod Consent
use aztec_accelerator.Prelude.{
  ℕ, Bool, false, not, Option, none, some, List, [], ◌∷◌, ◌++◌, contains, nat_eq, list_eq,
  if◌then◌else◌,
}
use aztec_accelerator.Prelude.Texts.{Text}
use aztec_accelerator.Authorization.Origin.{UrlParser, canonicalize_origin, is_approved}
use aztec_accelerator.Authorization.Manager.{
  PendingState, AuthDecision, allow, deny, RequestError, cooldown, too_many, Requested, accepted,
  refused, request, resolve,
}
use aztec_accelerator.Server.Header.{HeaderValues, first_text}
use aztec_accelerator.Server.Error.{
  ProveError, invalid_origin, origin_denied, too_many_requests, authorization_timeout,
  authorization_cancelled, authorization_cooldown,
}

-- The part of the config that authorization reads and writes, and whether the app may persist it.
pub record ConfigStore : Type 0 where
  pub approved_origins : List Text
  pub auto_approve_localhost : Bool
  pub has_cap : Bool

-- The part of `AppState` that authorization uses.
pub record AuthState : Type 0 where
  pub auth_manager : Option PendingState
  pub config : Option ConfigStore
  pub show_auth_popup : Bool

-- `finished none` is `Ok(())`; `waiting` holds the origin, the request and its channel, and says
-- whether a popup was opened for it.
pub data Begun : Type 0 where
  finished : Option ProveError → Begun
  waiting : Text → Text → ℕ → Bool → Begun

-- What the wait gives.
pub data Waited : Type 0 where
  decided : AuthDecision → Waited
  elapsed cancelled : Waited

refusal : RequestError → ProveError
refusal cooldown = authorization_cooldown
refusal too_many = too_many_requests

begun_of : Text → Requested → Begun
unfolding refusal
begun_of origin (refused e) = finished (some (refusal e))
begun_of origin (accepted rx id is_first is_active) = waiting origin id rx is_first

module _ (parse : UrlParser) where
  unfoldable pub approved_by : Option ConfigStore → Text → Bool
  approved_by none origin = false
  approved_by (some cfg) origin =
      is_approved parse origin cfg.approved_origins cfg.auto_approve_localhost

  ask : AuthState → PendingState → Text → ℕ → Text → ℕ → AuthState × Begun
  unfolding begun_of
  ask st am origin now fresh tx =
      let (am', answer) = request am origin now fresh tx in
      (record st { auth_manager = some am' }, begun_of origin answer)

  -- The values of the `Origin` header; one that cannot be read counts as absent.
  unfoldable pub begin_authorize : AuthState → HeaderValues → ℕ → Text → ℕ → AuthState × Begun
  unfolding approved_by ask
  begin_authorize st headers now fresh tx = elim st.auth_manager [
    | none ↦ (st, finished none)
    | some am ↦ elim (first_text headers) [
      | none ↦ (st, finished none)
      | some raw ↦ elim (canonicalize_origin parse raw) [
        | none ↦ (st, finished (some invalid_origin))
        | some origin ↦
            if approved_by st.config origin
            then (st, finished none)
            else if not st.show_auth_popup
            then (st, finished (some (origin_denied origin)))
            else ask st am origin now fresh tx
      ]
    ]
  ]

  -- `lock_mutate_save_to` with the closure that adds the origin: memory changes only if the save went
  -- well, and nothing is saved for an origin that is already approved.
  pub add_origin : ConfigStore → Text → Bool → ConfigStore
  add_origin cfg origin save_ok =
      if contains origin cfg.approved_origins
      then cfg
      else if save_ok
      then record cfg { approved_origins = cfg.approved_origins ++ origin ∷ [] }
      else cfg

  persist : Option ConfigStore → Text → Bool → Option ConfigStore
  unfolding add_origin
  persist none origin save_ok = none
  persist (some cfg) origin save_ok =
      if cfg.has_cap then some (add_origin cfg origin save_ok) else some cfg

  -- The deadline denies the request itself, as the user's refusal would.
  deny_pending : Option PendingState → Text → ℕ → Option PendingState
  deny_pending none id now = none
  deny_pending (some am) id now = some (resolve am id deny now).0

  unfoldable pub finish_authorize :
      AuthState → Text → Text → Waited → ℕ → Bool → AuthState × Option ProveError
  unfolding persist deny_pending
  finish_authorize st origin id elapsed now save_ok =
      (record st { auth_manager = deny_pending st.auth_manager id now }, some authorization_timeout)
  finish_authorize st origin id cancelled now save_ok = (st, some authorization_cancelled)
  finish_authorize st origin id (decided allow) now save_ok =
      (record st { config = persist st.config origin save_ok }, none)
  finish_authorize st origin id (decided deny) now save_ok = (st, some (origin_denied origin))
