-- ===== src/Server/Host/Loopback.antt =====
-- Which authorities pass the gate of packages/accelerator/core/src/server/host.rs.
use aztec_accelerator.Prelude.{
  ℕ, ◌≡◌, ◌⊎◌, ◌↔◌, inl, inr, refl, true, false, Option, none, some, [], ◌∷◌, ◌++◌, contains, ◌==◌,
  nat_eq, list_eq, arith, Option-cases, Bool-cases, ap, sym, ◌∙◌,
}
use aztec_accelerator.Prelude.Texts.{Text, codes, to_lower, text_eq_iff}
use aztec_accelerator.Prelude.Equality.{list_beq}
use aztec_accelerator.Server.Header.{
  HeaderValues, first_text, Shows, IsUnseen, first_text-none, none-first_text, first_text-some,
  some-first_text,
}
use aztec_accelerator.Server.Host.Grammar.{
  strip_suffix_sound, IsPortBehindBracket, IsUndotted, bracket_ok_sound, bracket_ok_complete,
  strip_dot-IsUndotted, IsUndotted-strip_dot,
}
use aztec_accelerator.Server.Host.{
  Authority, AuthorityParser, strip_suffix, strip_dot, strip_brackets, is_loopback, host_is_trusted,
  guard,
}

strip_brackets-cases :
    (h : Text) → (strip_brackets h ≡ h) ⊎ (h ≡ b'[' ∷ (strip_brackets h ++ b']' ∷ []))
unfolding strip_brackets
strip_brackets-cases [] = inl refl
strip_brackets-cases (c ∷ s) = elim (Option-cases (strip_suffix b']' s)) [
  | inl bad ↦ inl (ground arith)
  | inr (t, good) ↦ elim (Bool-cases (c == b'[')) [
    | inl bracket ↦ inr (rw (bracket, good) (ground (arith, strip_suffix_sound b']' s good)))
    | inr other ↦ inl (rw other refl)
  ]
]

-- The hosts that are let through, in lower case and without one trailing dot.
abbrev pub IsLoopbackName : Text → Type 0
IsLoopbackName h =
    (h ≡ codes "127.0.0.1")
    ⊎ (h ≡ codes "localhost")
    ⊎ (h ≡ codes "::1")
    ⊎ (h ≡ codes "[127.0.0.1]")
    ⊎ (h ≡ codes "[localhost]")
    ⊎ (h ≡ codes "[::1]")

loopback_sound : (h : Text) → is_loopback (strip_brackets h) ≡ true → IsLoopbackName h
loopback_sound h e = ground (
  arith,
  strip_brackets-cases h,
  text_eq_iff (strip_brackets h) (codes "127.0.0.1"),
  text_eq_iff (strip_brackets h) (codes "localhost"),
  text_eq_iff (strip_brackets h) (codes "::1"),
)

loopback_complete : (h : Text) → IsLoopbackName h → is_loopback (strip_brackets h) ≡ true
unfolding strip_brackets list_beq
loopback_complete h (inl e) = rw e refl
loopback_complete h (inr (inl e)) = rw e refl
loopback_complete h (inr (inr (inl e))) = rw e refl
loopback_complete h (inr (inr (inr (inl e)))) = rw e refl
loopback_complete h (inr (inr (inr (inr (inl e))))) = rw e refl
loopback_complete h (inr (inr (inr (inr (inr e))))) = rw e refl

module _ (parse : AuthorityParser) where
  -- An authority is trusted exactly if it has no `@`, parses, has its port at once behind a closing
  -- bracket, has the expected port, and its host, in lower case and without one trailing dot, is one
  -- of the three loopback names, with or without brackets.
  abbrev pub IsTrusted : Text → ℕ → Type 0
  IsTrusted authority port =
      (contains b'@' authority ≡ false)
      × IsPortBehindBracket authority
      × ((a : Authority) × (parse authority ≡ some a)
          × (a.port_u16 ≡ some port)
          × ((h : Text) × IsUndotted a.host h × IsLoopbackName (to_lower h)))

  IsTrusted-sound :
      (authority : Text) (port : ℕ)
      → host_is_trusted parse authority port ≡ true
      → IsTrusted authority port
  unfolding host_is_trusted
  IsTrusted-sound authority port h = elim (Option-cases (parse authority)) [
    | inl bad ↦ absurd (ground arith)
    | inr (a, good) ↦
        let host : is_loopback (strip_brackets (to_lower (strip_dot a.host))) ≡ true =
          ground arith in
        (
          ground arith,
          bracket_ok_sound authority (ground arith),
          (
            a,
            good,
            ground arith,
            (
              strip_dot a.host,
              strip_dot-IsUndotted a.host,
              loopback_sound (to_lower (strip_dot a.host)) host,
            ),
          ),
        )
  ]

  IsTrusted-complete :
      (authority : Text) (port : ℕ)
      → IsTrusted authority port
      → host_is_trusted parse authority port ≡ true
  unfolding host_is_trusted
  IsTrusted-complete authority port (user, bracket, (a, good, same, (h, undotted, name))) =
      let cut : strip_dot a.host ≡ h = IsUndotted-strip_dot a.host h undotted in
      let allowed : is_loopback (strip_brackets (to_lower (strip_dot a.host))) ≡ true =
        ap (λ t. is_loopback (strip_brackets (to_lower t))) cut
        ∙ loopback_complete (to_lower h) name in
      let placed = bracket_ok_complete authority bracket in ground arith

  guard_seen :
      (port : ℕ) (values : HeaderValues) (host authority : Option Text)
      → first_text values ≡ host
      → (guard parse port values authority ≡ true) ↔ (
          (v : Text) × ((host ≡ some v) ⊎ (authority ≡ some v))
          × ((host ≡ none) ⊎ (host ≡ some v))
          × ((authority ≡ none) ⊎ (authority ≡ some v))
          × IsTrusted v port)
  unfolding guard
  guard_seen port values none none seen =
      (λ h. absurd (ground (arith, seen)), λ w. absurd (ground arith))
  guard_seen port values (some v) none seen = (
    λ h. (v, inl refl, inr refl, inl refl, IsTrusted-sound v port (ground (arith, seen))),
    λ w. ground (arith, seen, IsTrusted-complete v port),
  )
  guard_seen port values none (some v) seen = (
    λ h. (v, inr refl, inl refl, inr refl, IsTrusted-sound v port (ground (arith, seen))),
    λ w. ground (arith, seen, IsTrusted-complete v port),
  )
  guard_seen port values (some v) (some u) seen = (
    λ h.
        let same : v ≡ u = ground (arith, seen, text_eq_iff v u) in
        let trusted : host_is_trusted parse v port ≡ true = ground (arith, seen) in
        (v, inl refl, inr refl, inr (ap some (sym same)), IsTrusted-sound v port trusted),
    λ w. ground (arith, seen, text_eq_iff v u, IsTrusted-complete v port),
  )

  -- A request passes the gate exactly if its first `Host` value, where that is readable as text, or
  -- its `:authority` is a trusted value v, and neither of the two is another text. A `Host` that is
  -- not readable counts as absent, so a request with such a `Host` passes exactly if its `:authority`
  -- is trusted; with no `:authority` it is refused.
  pub guard_exact :
      (port : ℕ) (hosts : HeaderValues) (authority : Option Text)
      → (guard parse port hosts authority ≡ true) ↔ (
          (v : Text) × (Shows hosts v ⊎ (authority ≡ some v))
          × (IsUnseen hosts ⊎ Shows hosts v)
          × ((authority ≡ none) ⊎ (authority ≡ some v))
          × IsTrusted v port)
  guard_exact port hosts authority =
      let (sound, complete) = guard_seen port hosts (first_text hosts) authority refl in
      (
        λ h.
            let (v, carried, host, other, trusted) = sound h in
            (
              v,
              elim carried [ inl e ↦ inl (first_text-some hosts v e) | inr e ↦ inr e ],
              elim host [
                | inl e ↦ inl (first_text-none hosts e)
                | inr e ↦ inr (first_text-some hosts v e)
              ],
              other,
              trusted,
            ),
        λ (v, carried, host, other, trusted). complete (
          v,
          elim carried [ inl e ↦ inl (some-first_text hosts v e) | inr e ↦ inr e ],
          elim host [
            | inl e ↦ inl (none-first_text hosts e)
            | inr e ↦ inr (some-first_text hosts v e)
          ],
          other,
          trusted,
        ),
      )
