-- ===== src/Authorization/Origin/Canonical.antt =====
-- What a canonical origin of packages/accelerator/core/src/authorization.rs looks like.
use aztec_accelerator.Prelude.{
  ℕ, ◌≡◌, ◌≢◌, ◌⊎◌, ◌↔◌, subst, sym, ap, ◌∷◌, ◌++◌, inl, inr, false, none, some, [], nat_eq,
  list_eq, arith, Option-cases, Bool-cases,
}
use aztec_accelerator.Prelude.Texts.{Text, codes, to_lower, text_eq_iff}
use aztec_accelerator.Prelude.Numbers.{decimal}
use aztec_accelerator.Authorization.Origin.Grammar.{
  IsUuid, IsChromeId, IsUuid-sound, IsUuid-complete, IsChromeId-sound, IsChromeId-complete,
  ends_with_dot_sound, ends_with_dot-append,
}
use aztec_accelerator.Authorization.Origin.{
  Url, UrlParser, ends_with_dot, format_origin, by_scheme, with_host, canonicalize_url,
  canonicalize_origin,
}

-- The URL has the form of an origin, and `host` is its host.
pub record IsBareOrigin (url : Url) (host : Text) : Type 0 where
  pub path : (url.path ≡ []) ⊎ (url.path ≡ codes "/")
  pub query : url.query ≡ none
  pub fragment : url.fragment ≡ none
  pub username : url.username ≡ []
  pub password : url.password ≡ none
  pub host_str : url.host_str ≡ some host
  pub filled : host ≢ []
  pub undotted : (front : Text) → host ≢ front ++ b'.' ∷ []

-- The scheme is allowed, and an extension has no port and an identifier of its fixed grammar.
abbrev pub IsAllowed : Url → Text → Type 0
IsAllowed url id =
    ((url.scheme ≡ codes "http")
      ⊎ (url.scheme ≡ codes "https")
      ⊎ (url.scheme ≡ codes "ws")
      ⊎ (url.scheme ≡ codes "wss"))
    ⊎ ((url.scheme ≡ codes "chrome-extension") × (url.port ≡ none) × IsChromeId id)
    ⊎ (((url.scheme ≡ codes "moz-extension") ⊎ (url.scheme ≡ codes "safari-web-extension"))
        × (url.port ≡ none)
        × IsUuid id)

-- The text of an origin: the scheme, "://", the host, and a colon and the port where there is one.
abbrev pub IsOriginText : Url → Text → Text → Type 0
IsOriginText url id o =
    ((url.port ≡ none) × (o ≡ url.scheme ++ (codes "://" ++ id)))
    ⊎ ((p : ℕ) × (url.port ≡ some p)
        × (o ≡ url.scheme ++ (codes "://" ++ (id ++ (b':' ∷ decimal p)))))

format_origin-IsOriginText :
    (url : Url) (id : Text) → IsOriginText url id (format_origin url.scheme id url.port)
unfolding format_origin
format_origin-IsOriginText url id = elim (Option-cases url.port) [
  | inl e ↦ inl (e, ground arith)
  | inr (p, e) ↦ inr (p, e, ground arith)
]

IsOriginText-format_origin :
    (url : Url) (id o : Text) → IsOriginText url id o → format_origin url.scheme id url.port ≡ o
unfolding format_origin
IsOriginText-format_origin url id o (inl (e, t)) = ground arith
IsOriginText-format_origin url id o (inr (p, e, t)) = ground arith

by_scheme_sound :
    (url : Url) (host : Text) {o : Text}
    → by_scheme url host ≡ some o
    → IsAllowed url (to_lower host) × IsOriginText url (to_lower host) o
unfolding by_scheme
by_scheme_sound url host {o} h =
    let id = to_lower host in
    let known : (IsAllowed url id × (o ≡ format_origin url.scheme id url.port)) = ground (
      arith,
      text_eq_iff url.scheme (codes "http"),
      text_eq_iff url.scheme (codes "https"),
      text_eq_iff url.scheme (codes "ws"),
      text_eq_iff url.scheme (codes "wss"),
      text_eq_iff url.scheme (codes "chrome-extension"),
      text_eq_iff url.scheme (codes "moz-extension"),
      text_eq_iff url.scheme (codes "safari-web-extension"),
      IsUuid-sound id,
      IsChromeId-sound id,
    ) in
    (known.0, subst (IsOriginText url id) (sym known.1) (format_origin-IsOriginText url id))

canonicalize_url_sound :
    (url : Url) {o : Text}
    → canonicalize_url url ≡ some o
    → (host : Text) × IsBareOrigin url host
      × IsAllowed url (to_lower host)
      × IsOriginText url (to_lower host) o
unfolding canonicalize_url with_host
canonicalize_url_sound url {o} h = elim (Option-cases url.host_str) [
  | inl e ↦ absurd (ground arith)
  | inr (host, e) ↦
      let known : by_scheme url host ≡ some o = ground (arith, e) in
      let undotted : ends_with_dot host ≡ false = ground (arith, e) in
      let (allowed, shape) = by_scheme_sound url host known in
      (
        host,
        record {
          path = ground (arith, text_eq_iff url.path (codes "/"));
          query = ground arith;
          fragment = ground arith;
          username = ground arith;
          password = ground arith;
          host_str = e;
          filled = ground (arith, e);
          undotted = λ front q. ground (arith, ends_with_dot-append front, ap ends_with_dot q);
        },
        allowed,
        shape,
      )
]

by_scheme_complete :
    (url : Url) (host : Text) {o : Text}
    → IsAllowed url (to_lower host)
    → IsOriginText url (to_lower host) o
    → by_scheme url host ≡ some o
unfolding by_scheme
by_scheme_complete url host {o} allowed text =
    let id = to_lower host in
    ground (
      arith,
      IsOriginText-format_origin url id o text,
      text_eq_iff url.scheme (codes "http"),
      text_eq_iff url.scheme (codes "https"),
      text_eq_iff url.scheme (codes "ws"),
      text_eq_iff url.scheme (codes "wss"),
      text_eq_iff url.scheme (codes "chrome-extension"),
      text_eq_iff url.scheme (codes "moz-extension"),
      text_eq_iff url.scheme (codes "safari-web-extension"),
      IsUuid-complete id,
      IsChromeId-complete id,
    )

not-ends_with_dot :
    (host : Text) → ((front : Text) → host ≢ front ++ b'.' ∷ []) → ends_with_dot host ≡ false
not-ends_with_dot host f = elim (Bool-cases (ends_with_dot host)) [
  | inl e ↦ let (front, q) = ends_with_dot_sound host e in absurd (f front q)
  | inr e ↦ e
]

canonicalize_url_complete :
    (url : Url) (host : Text) {o : Text}
    → IsBareOrigin url host
    → IsAllowed url (to_lower host)
    → IsOriginText url (to_lower host) o
    → canonicalize_url url ≡ some o
unfolding canonicalize_url with_host
canonicalize_url_complete url host bare allowed text = ground (
  arith,
  text_eq_iff url.path (codes "/"),
  not-ends_with_dot host bare.undotted,
  by_scheme_complete url host allowed text,
)

module _ (parse : UrlParser) where
  -- An input has the canonical origin o exactly if it parses as a URL with nothing behind the host
  -- but an empty path or "/", no user name and no password, a non-empty host that does not end in a
  -- dot, and an allowed scheme: http, https, ws or wss, or an extension scheme with no port and an
  -- identifier of its grammar (32 letters from a to p for Chrome, a UUID for Firefox and Safari); and
  -- o is the scheme, "://", the host in lower case, and a colon and the port where it is not the
  -- default. So an input that does not parse has none.
  pub canonicalize_origin_exact :
      (input o : Text)
      → (canonicalize_origin parse input ≡ some o) ↔ (
          (url : Url) × (host : Text) × (parse input ≡ some url)
          × IsBareOrigin url host
          × IsAllowed url (to_lower host)
          × IsOriginText url (to_lower host) o)
  unfolding canonicalize_origin
  canonicalize_origin_exact input o = (
    λ h. elim (Option-cases (parse input)) [
      | inl bad ↦ absurd (ground (arith, bad))
      | inr (url, e) ↦
          let (host, bare, allowed, text) = canonicalize_url_sound url (ground (arith, e)) in
          (url, host, e, bare, allowed, text)
    ],
    λ (url, host, e, bare, allowed, text).
        rw (e, canonicalize_origin) (canonicalize_url_complete url host bare allowed text),
  )
