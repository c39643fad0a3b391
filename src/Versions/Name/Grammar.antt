-- ===== src/Versions/Name/Grammar.antt =====
-- What the validated names of packages/accelerator/core/src/versions/version_policy.rs look like.
use aztec_accelerator.Prelude.{
  ℕ, ◌≤◌, ◌≡◌, ◌≢◌, refl, Bool, true, false, not, ◌&&◌, ◌||◌, none, some, List, [], ◌∷◌, ◌++◌,
  length, all, ◌==◌, nat_eq, if◌then◌else◌, arith, leb, contains, ◌⊎◌, inl, inr, subst, All,
  Bool-cases,
}
use aztec_accelerator.Prelude.Texts.{Text, codes, is_alphanumeric, rsplit_once}
use aztec_accelerator.Prelude.Numbers.{decimal, u64_max, parse_u64-decimal, no_dot-decimal}
use aztec_accelerator.Versions.Name.{
  is_valid_version, is_version_byte, starts_with_dot, ends_with_dot, contains_dotdot, is_empty,
  AztecVersion, parse, version_sort_key,
}

prepend : ℕ → List Text → List Text
prepend c [] = (c ∷ []) ∷ []
prepend c (s ∷ ss) = (c ∷ s) ∷ ss

-- The parts of a text between its dots.
pub segments : Text → List Text
unfolding prepend
segments [] = [] ∷ []
segments (c ∷ s) = if c == b'.' then [] ∷ segments s else prepend c (segments s)

abbrev pub is_segment : Text → Bool
is_segment s = not (is_empty s) && all (λ c. is_alphanumeric c || (c == b'-' || c == b'_')) s

abbrev later : List Text → List Text
later [] = []
later (s ∷ ss) = ss

abbrev plain_byte : ℕ → Bool
plain_byte c = is_alphanumeric c || (c == b'-' || c == b'_')

abbrev filled : Text → Bool
filled s = not (is_empty s)

later-prepend : (c : ℕ) (ss : List Text) → later (prepend c ss) ≡ later ss
unfolding prepend
later-prepend c [] = refl
later-prepend c (s ∷ ss) = refl

filled-prepend : (c : ℕ) (ss : List Text) → all filled (prepend c ss) ≡ all filled (later ss)
unfolding prepend
filled-prepend c [] = refl
filled-prepend c (s ∷ ss) = refl

filled-segments :
    (s : Text)
    → all filled (segments s)
      ≡ (filled s && (not (starts_with_dot s) && all filled (later (segments s))))
unfolding segments
filled-segments [] = refl
filled-segments (c ∷ s) =
    ground (arith, filled-prepend c (segments s), later-prepend c (segments s))

later-segments :
    (s : Text)
    → all filled (later (segments s)) ≡ (not (ends_with_dot s) && not (contains_dotdot s))
unfolding segments ends_with_dot contains_dotdot
later-segments [] = refl
later-segments (c ∷ []) = ground (arith, later-prepend c (segments []))
later-segments (c ∷ (d ∷ s)) =
    ground
      (arith, later-segments (d ∷ s), filled-segments (d ∷ s), later-prepend c (segments (d ∷ s)))

plain-prepend :
    (c : ℕ) (ss : List Text)
    → all (all plain_byte) (prepend c ss) ≡ (plain_byte c && all (all plain_byte) ss)
unfolding prepend
plain-prepend c [] = ground arith
plain-prepend c (s ∷ ss) = ground arith

plain-segments : (s : Text) → all (all plain_byte) (segments s) ≡ all is_version_byte s
unfolding segments
plain-segments [] = refl
plain-segments (c ∷ s) = ground (arith, plain-segments s, plain-prepend c (segments s))

all-segment : (ss : List Text) → all is_segment ss ≡ (all filled ss && all (all plain_byte) ss)
all-segment [] = refl
all-segment (s ∷ ss) = ground (arith, all-segment ss)

-- A version name is valid exactly when it has at most 128 bytes and each of its parts between dots
-- is a non-empty run of ASCII letters, digits, dashes and underscores.
pub is_valid_version_iff :
    (s : Text) → is_valid_version s ≡ (leb (length s) 128 && all is_segment (segments s))
unfolding is_valid_version
is_valid_version_iff s =
    ground (arith, all-segment (segments s), plain-segments s, filled-segments s, later-segments s)

-- An ASCII digit, upper or lower case letter, dot, dash or underscore.
abbrev pub IsPlainByte : ℕ → Type 0
IsPlainByte c =
    ((48 ≤ c) × (c ≤ 57))
    ⊎ ((65 ≤ c) × (c ≤ 90))
    ⊎ ((97 ≤ c) × (c ≤ 122))
    ⊎ (c ≡ 46)
    ⊎ (c ≡ 45)
    ⊎ (c ≡ 95)

version_byte-IsPlainByte : (c : ℕ) → is_version_byte c ≡ true → IsPlainByte c
version_byte-IsPlainByte c h = ground arith

All-IsPlainByte : (s : Text) → all is_version_byte s ≡ true → All IsPlainByte s
All-IsPlainByte [] h = tt
All-IsPlainByte (c ∷ s) h =
    (version_byte-IsPlainByte c (ground arith), All-IsPlainByte s (ground arith))

not-IsPlainByte : (c : ℕ) (s : Text) → ¬ IsPlainByte c → All IsPlainByte s → contains c s ≡ false
not-IsPlainByte c [] n h = refl
not-IsPlainByte c (d ∷ s) n (p, h) = elim (Bool-cases (d == c)) [
  | inl e ↦ absurd (n (subst IsPlainByte (ground (arith, e)) p))
  | inr e ↦ ground (arith, not-IsPlainByte c s n h)
]

-- A parsed version is one path component and cannot leave the cache directory or the path of the
-- download URL: it is the text that was asked for, it has 1 to 128 bytes and is neither "." nor
-- "..", each of its bytes is an ASCII letter, a digit, a dot, a dash or an underscore, and so it
-- holds no slash, no backslash, no colon, no percent sign and no NUL.
pub parse_is_safe_component :
    (s : Text) {v : AztecVersion}
    → parse s ≡ some v
    → (v.raw ≡ s)
      × (s ≢ [])
      × (s ≢ codes ".")
      × (s ≢ codes "..")
      × (length s ≤ 128)
      × All IsPlainByte s
      × (contains b'/' s ≡ false)
      × (contains 92 s ≡ false)
      × (contains b':' s ≡ false)
      × (contains b'%' s ≡ false)
      × (contains 0 s ≡ false)
unfolding parse is_valid_version
parse_is_safe_component [] h = absurd (ground arith)
parse_is_safe_component (c ∷ s) h =
    let plain = All-IsPlainByte (c ∷ s) (ground arith) in
    (
      ground arith,
      ground arith,
      ground arith,
      ground arith,
      ground arith,
      plain,
      not-IsPlainByte b'/' (c ∷ s) (λ p. ground arith) plain,
      not-IsPlainByte 92 (c ∷ s) (λ p. ground arith) plain,
      not-IsPlainByte b':' (c ∷ s) (λ p. ground arith) plain,
      not-IsPlainByte b'%' (c ∷ s) (λ p. ground arith) plain,
      not-IsPlainByte 0 (c ∷ s) (λ p. ground arith) plain,
    )

rsplit_once_no_sep : (s : Text) → contains b'.' s ≡ false → rsplit_once b'.' s ≡ none
unfolding rsplit_once
rsplit_once_no_sep [] h = refl
rsplit_once_no_sep (c ∷ s) h = ground (arith, rsplit_once_no_sep s)

rsplit_once-append :
    (base suffix : Text)
    → contains b'.' suffix ≡ false
    → rsplit_once b'.' (base ++ b'.' ∷ suffix) ≡ some (base, suffix)
unfolding rsplit_once
rsplit_once-append [] suffix h = ground (arith, rsplit_once_no_sep suffix)
rsplit_once-append (c ∷ base) suffix h = ground (arith, rsplit_once-append base suffix)

-- The sort key of a version with a numeric last part is the text before that part and the number,
-- for every 64-bit number; so release candidates are ordered as numbers and not as texts.
pub version_sort_key_numeric :
    (base : Text) (n : ℕ) → n ≤ u64_max → version_sort_key (base ++ b'.' ∷ decimal n) ≡ (base, n)
unfolding version_sort_key
version_sort_key_numeric base n h =
    ground (arith, rsplit_once-append base (decimal n) (no_dot-decimal n), parse_u64-decimal n h)
