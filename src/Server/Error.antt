-- ===== src/Server/Error.antt =====
-- `ProveError` of packages/accelerator/core/src/server.rs, and the status and code that each error
-- has in its HTTP reply. Texts that only carry an error message of a library are left out.
use aztec_accelerator.Prelude.{ℕ}
use aztec_accelerator.Prelude.Texts.{Text, codes}
use aztec_accelerator.Versions.Selectable.{VersionRejection}

pub data ProveError : Type 0 where
  invalid_version : Text → ProveError
  version_not_allowed : Text → VersionRejection → ProveError
  payload_too_large body_read_timeout service_unavailable version_evicting : ProveError
  download_failed : Text → ProveError
  prove_failed invalid_origin : ProveError
  origin_denied : Text → ProveError
  too_many_requests prove_queue_full authorization_timeout authorization_cancelled
        authorization_cooldown :
      ProveError

-- `into_response`: the status and the `error` field of the body.
unfoldable pub into_response : ProveError → ℕ × Text
into_response (invalid_version _) = (400, codes "invalid_version")
into_response (version_not_allowed _ _) = (403, codes "version_not_allowed")
into_response payload_too_large = (413, codes "payload_too_large")
into_response body_read_timeout = (408, codes "body_read_timeout")
into_response service_unavailable = (503, codes "service_unavailable")
into_response version_evicting = (503, codes "version_evicting")
into_response (download_failed _) = (500, codes "download_failed")
into_response prove_failed = (500, codes "prove_failed")
into_response invalid_origin = (400, codes "invalid_origin")
into_response (origin_denied _) = (403, codes "origin_denied")
into_response too_many_requests = (429, codes "too_many_requests")
into_response prove_queue_full = (429, codes "prove_queue_full")
into_response authorization_timeout = (403, codes "authorization_timeout")
into_response authorization_cancelled = (403, codes "authorization_cancelled")
into_response authorization_cooldown = (403, codes "authorization_cooldown")
