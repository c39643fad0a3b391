-- ===== src/Server/Host.antt =====
-- packages/accelerator/core/src/server/host.rs: the loopback allowlist on `Host` and `:authority`.
-- The parser of authorities is the crate `http`'s and a parameter.
pub mod Grammar
pub mod Loopback
use aztec_accelerator.Prelude.{
  ℕ, Bool, true, false, not, ◌||◌, Option, none, some, [], ◌∷◌, contains, ◌==◌, nat_eq, list_eq,
  if◌then◌else◌,
}
use aztec_accelerator.Prelude.Texts.{Text, codes, to_lower}
use aztec_accelerator.Server.Header.{HeaderValues, first_text}

-- `http::uri::Authority`: `host()` keeps the brackets of an IPv6 literal.
pub record Authority : Type 0 where
  pub host : Text
  pub port_u16 : Option ℕ

-- `str::parse::<Authority>`
abbrev pub AuthorityParser : Type 0
AuthorityParser = Text → Option Authority

-- `str::strip_suffix` with one byte
unfoldable pub strip_suffix : ℕ → Text → Option Text
strip_suffix c [] = none
strip_suffix c (d ∷ []) = if d == c then some [] else none
strip_suffix c (d ∷ (e ∷ s)) = elim (strip_suffix c (e ∷ s)) [ none ↦ none | some t ↦ some (d ∷ t) ]

-- The text from behind the first `]` on.
unfoldable pub behind_bracket : Text → Option Text
behind_bracket [] = none
behind_bracket (c ∷ s) = if c == b']' then some s else behind_bracket s

abbrev pub starts_with_colon : Text → Bool
starts_with_colon [] = false
starts_with_colon (c ∷ s) = c == b':'

-- Behind the first `]` of the raw text, if it has one, the port follows at once.
unfoldable pub bracket_ok : Text → Bool
unfolding behind_bracket
bracket_ok authority = elim (behind_bracket authority) [
  | none ↦ true
  | some rest ↦ starts_with_colon rest
]

abbrev pub or_else : Option Text → Text → Text
or_else none s = s
or_else (some t) s = t

-- `strip_suffix('.').unwrap_or(host)`
unfoldable pub strip_dot : Text → Text
unfolding strip_suffix
strip_dot host = or_else (strip_suffix b'.' host) host

-- `strip_prefix('[').and_then(|h| h.strip_suffix(']')).unwrap_or(host)`
pub strip_brackets : Text → Text
unfolding strip_suffix
strip_brackets [] = []
strip_brackets (c ∷ s) = if c == b'[' then or_else (strip_suffix b']' s) (c ∷ s) else c ∷ s

abbrev pub is_loopback : Text → Bool
is_loopback h = h == codes "127.0.0.1" || (h == codes "localhost" || h == codes "::1")

abbrev has_port : Option ℕ → ℕ → Bool
has_port none expected = false
has_port (some p) expected = p == expected

module _ (parse : AuthorityParser) where
  trusted_parsed : Authority → Text → ℕ → Bool
  trusted_parsed parsed authority expected_port =
      if not (bracket_ok authority)
      then false
      else if not (has_port parsed.port_u16 expected_port)
      then false
      else is_loopback (strip_brackets (to_lower (strip_dot parsed.host)))

  unfoldable pub host_is_trusted : Text → ℕ → Bool
  unfolding trusted_parsed bracket_ok strip_dot strip_brackets
  host_is_trusted authority expected_port =
      if contains b'@' authority then false else elim (parse authority) [
        | none ↦ false
        | some parsed ↦ trusted_parsed parsed authority expected_port
      ]

  -- The value of the two headers, if they do not disagree.
  pub header_value : Option Text → Option Text → Option Text
  header_value (some h) (some a) = if h == a then some h else none
  header_value (some h) none = some h
  header_value none (some a) = some a
  header_value none none = none

  -- The values of the `Host` header, and the `:authority`; `true` is `next.run(req)`, `false` the
  -- reply 403. A `Host` that cannot be read counts as absent.
  unfoldable pub guard : ℕ → HeaderValues → Option Text → Bool
  unfolding host_is_trusted header_value
  guard expected_port host_headers authority =
      elim (header_value (first_text host_headers) authority) [
        | none ↦ false
        | some v ↦ host_is_trusted v expected_port
      ]
