-- ===== src/Authorization/Origin.antt =====
-- packages/accelerator/core/src/authorization.rs: canonical origins and the approval test. The crate
-- `url` is a parameter: its parser gives the parts of a URL that the source asks for.
pub mod Canonical
pub mod Grammar
use aztec_accelerator.Prelude.{
  ℕ, ◌+◌, Bool, true, false, not, ◌&&◌, ◌||◌, Option, none, some, is_some, List, [], ◌∷◌, ◌++◌, leb,
  length, all, contains, ◌==◌, nat_eq, list_eq, if◌then◌else◌,
}
use aztec_accelerator.Prelude.Texts.{Text, codes, to_lower, is_digit}
use aztec_accelerator.Prelude.Numbers.{decimal}

-- The parts of a `url::Url`; `port` is `none` for the scheme's default port.
pub record Url : Type 0 where
  pub scheme : Text
  pub username : Text
  pub password : Option Text
  pub host_str : Option Text
  pub port : Option ℕ
  pub path : Text
  pub query : Option Text
  pub fragment : Option Text

-- `Url::parse`
abbrev pub UrlParser : Type 0
UrlParser = Text → Option Url

abbrev pub is_empty : Text → Bool
is_empty [] = true
is_empty (_ ∷ _) = false

unfoldable pub ends_with_dot : Text → Bool
ends_with_dot [] = false
ends_with_dot (c ∷ []) = c == b'.'
ends_with_dot (c ∷ (d ∷ s)) = ends_with_dot (d ∷ s)

unfoldable pub is_chrome_extension_id : Text → Bool
is_chrome_extension_id id = length id == 32 && all (λ b. leb b'a' b && leb b b'p') id

abbrev pub is_dash_place : ℕ → Bool
is_dash_place i = i == 8 || (i == 13 || (i == 18 || i == 23))

abbrev pub is_hex : ℕ → Bool
is_hex c = is_digit c || (leb b'a' c && leb c b'f')

-- The loop over `enumerate()`, from place i on.
unfoldable pub uuid_bytes : ℕ → Text → Bool
uuid_bytes i [] = true
uuid_bytes i (c ∷ s) = (if is_dash_place i then c == b'-' else is_hex c) && uuid_bytes (1 + i) s

unfoldable pub is_extension_uuid : Text → Bool
unfolding uuid_bytes
is_extension_uuid id = length id == 36 && uuid_bytes 0 id

-- "http" | "https" | "ws" | "wss"
abbrev pub is_tuple_scheme : Text → Bool
is_tuple_scheme s =
    s == codes "http" || (s == codes "https" || (s == codes "ws" || s == codes "wss"))

abbrev pub is_extension_scheme : Text → Bool
is_extension_scheme s =
    s == codes "chrome-extension"
    || (s == codes "moz-extension" || s == codes "safari-web-extension")

-- `format!("{}://{}:{}", …)` and `format!("{}://{}", …)`
unfoldable pub format_origin : Text → Text → Option ℕ → Text
format_origin scheme host none = scheme ++ (codes "://" ++ host)
format_origin scheme host (some p) = scheme ++ (codes "://" ++ (host ++ (b':' ∷ decimal p)))

-- The match on the scheme.
by_scheme : Url → Text → Option Text
unfolding format_origin is_chrome_extension_id is_extension_uuid
by_scheme url host =
    let id = to_lower host in
    let id_ok =
      if url.scheme == codes "chrome-extension"
      then is_chrome_extension_id id
      else is_extension_uuid id in
    if is_tuple_scheme url.scheme
    then some (format_origin url.scheme id url.port)
    else if is_extension_scheme url.scheme
    then (if is_some url.port
        then none
        else if id_ok
        then some (format_origin url.scheme id none)
        else none)
    else none

with_host : Url → Option Text → Option Text
with_host url none = none
with_host url (some host) = if is_empty host || ends_with_dot host then none else by_scheme url host

canonicalize_url : Url → Option Text
unfolding with_host by_scheme ends_with_dot
canonicalize_url url =
    if not (is_empty url.path) && not (url.path == codes "/")
    then none
    else if is_some url.query || is_some url.fragment
    then none
    else if not (is_empty url.username) || is_some url.password
    then none
    else with_host url url.host_str

module _ (parse : UrlParser) where
  unfoldable pub canonicalize_origin : Text → Option Text
  unfolding canonicalize_url
  canonicalize_origin input = elim (parse input) [ none ↦ none | some url ↦ canonicalize_url url ]

  -- The strict `Deserialize` of `CanonicalOrigin`: the text must be canonical already.
  unfoldable pub deserialize : Text → Option Text
  unfolding canonicalize_origin
  deserialize s = elim (canonicalize_origin s) [
    | none ↦ none
    | some canon ↦ if canon == s then some s else none
  ]

  local_host : Option Text → Bool
  local_host none = false
  local_host (some h) =
      let l = to_lower h in l == codes "localhost" || (l == codes "127.0.0.1" || l == codes "[::1]")

  unfoldable pub is_auto_approved : Text → Bool
  unfolding local_host
  is_auto_approved origin = elim (parse origin) [
    | none ↦ false
    | some u ↦ (u.scheme == codes "http" || u.scheme == codes "https") && local_host u.host_str
  ]

  unfoldable pub is_approved : Text → List Text → Bool → Bool
  unfolding is_auto_approved
  is_approved origin approved_origins auto_approve_localhost =
      auto_approve_localhost && is_auto_approved origin || contains origin approved_origins
