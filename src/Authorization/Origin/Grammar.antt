-- ===== src/Authorization/Origin/Grammar.antt =====
-- The identifier grammars of packages/accelerator/core/src/authorization.rs as descriptions that
-- do not run: what `is_chrome_extension_id`, `is_extension_uuid` and the test for a last dot accept.
use aztec_accelerator.Prelude.{
  ℕ, zero, suc, ◌+◌, ◌≤◌, ◌≡◌, ◌⊎◌, inl, inr, refl, subst, ap, true, ◌&&◌, Option, none, some, [],
  ◌∷◌, ◌++◌, leb, length, all, ◌==◌, nat_eq, if◌then◌else◌, arith, All, Bool-cases,
}
use aztec_accelerator.Prelude.Texts.{Text}
use aztec_accelerator.Authorization.Origin.{
  ends_with_dot, is_chrome_extension_id, is_dash_place, is_hex, uuid_bytes, is_extension_uuid,
}

-- The byte at a place, where there is one.
abbrev pub byte_at : ℕ → Text → Option ℕ
byte_at i [] = none
byte_at zero (c ∷ s) = some c
byte_at (suc i) (c ∷ s) = byte_at i s

abbrev pub IsDashPlace : ℕ → Type 0
IsDashPlace i = (i ≡ 8) ⊎ (i ≡ 13) ⊎ (i ≡ 18) ⊎ (i ≡ 23)

-- A digit or one of the letters a to f.
abbrev pub IsHexByte : ℕ → Type 0
IsHexByte c = ((48 ≤ c) × (c ≤ 57)) ⊎ ((97 ≤ c) × (c ≤ 102))

-- A UUID has dashes at its four places and hexadecimal digits at all others.
abbrev pub FitsPlace : ℕ → ℕ → Type 0
FitsPlace i c = (IsDashPlace i → c ≡ 45) × (¬ IsDashPlace i → IsHexByte c)

abbrev pub IsUuid : Text → Type 0
IsUuid id = (length id ≡ 36) × ((i c : ℕ) → byte_at i id ≡ some c → FitsPlace i c)

-- 32 letters from a to p.
abbrev pub IsChromeId : Text → Type 0
IsChromeId id = (length id ≡ 32) × All (λ c. (97 ≤ c) × (c ≤ 112)) id

place_fits : (i c : ℕ) → (if is_dash_place i then c == b'-' else is_hex c) ≡ true → FitsPlace i c
place_fits i c h = (λ d. ground arith, λ n. ground arith)

fits_place : (i c : ℕ) → FitsPlace i c → (if is_dash_place i then c == b'-' else is_hex c) ≡ true
fits_place i c (dash, hex) = elim (Bool-cases (is_dash_place i)) [
  | inl e ↦ let d : c ≡ 45 = dash (ground arith) in ground arith
  | inr e ↦ let x : IsHexByte c = hex (λ d. ground arith) in ground arith
]

uuid_bytes_sound :
    (i : ℕ) (s : Text)
    → uuid_bytes i s ≡ true
    → (k c : ℕ) → byte_at k s ≡ some c
    → FitsPlace (i + k) c
unfolding uuid_bytes
uuid_bytes_sound i [] h k c e = absurd (ground arith)
uuid_bytes_sound i (d ∷ s) h zero c e =
    subst (λ j. FitsPlace j c) (omega arith)
      (subst (FitsPlace i) (ground (arith, e)) (place_fits i d (ground arith)))
uuid_bytes_sound i (d ∷ s) h (suc k) c e =
    subst (λ j. FitsPlace j c) (omega arith) (uuid_bytes_sound (1 + i) s (ground arith) k c e)

uuid_bytes_complete :
    (i : ℕ) (s : Text)
    → ((k c : ℕ) → byte_at k s ≡ some c → FitsPlace (i + k) c)
    → uuid_bytes i s ≡ true
unfolding uuid_bytes
uuid_bytes_complete i [] f = refl
uuid_bytes_complete i (d ∷ s) f =
    let here = fits_place i d (subst (λ j. FitsPlace j d) (omega arith) (f 0 d refl)) in
    let rest =
      uuid_bytes_complete (1 + i) s
        (λ k c e. subst (λ j. FitsPlace j c) (omega arith) (f (suc k) c e)) in
    ground arith

pub IsUuid-sound : (id : Text) → is_extension_uuid id ≡ true → IsUuid id
unfolding is_extension_uuid
IsUuid-sound id h = (
  ground arith,
  λ i c e. subst (λ j. FitsPlace j c) (omega arith) (uuid_bytes_sound 0 id (ground arith) i c e),
)

pub IsUuid-complete : (id : Text) → IsUuid id → is_extension_uuid id ≡ true
unfolding is_extension_uuid
IsUuid-complete id (n, f) =
    let bytes =
      uuid_bytes_complete 0 id (λ k c e. subst (λ j. FitsPlace j c) (omega arith) (f k c e)) in
    ground arith

a_to_p_sound :
    (s : Text) → all (λ b. leb b'a' b && leb b b'p') s ≡ true → All (λ c. (97 ≤ c) × (c ≤ 112)) s
a_to_p_sound [] h = tt
a_to_p_sound (c ∷ s) h = (ground arith, a_to_p_sound s (ground arith))

a_to_p_complete :
    (s : Text) → All (λ c. (97 ≤ c) × (c ≤ 112)) s → all (λ b. leb b'a' b && leb b b'p') s ≡ true
a_to_p_complete [] h = refl
a_to_p_complete (c ∷ s) (h, k) = ground (arith, a_to_p_complete s k)

pub IsChromeId-sound : (id : Text) → is_chrome_extension_id id ≡ true → IsChromeId id
unfolding is_chrome_extension_id
IsChromeId-sound id h = (ground arith, a_to_p_sound id (ground arith))

pub IsChromeId-complete : (id : Text) → IsChromeId id → is_chrome_extension_id id ≡ true
unfolding is_chrome_extension_id
IsChromeId-complete id (n, letters) = ground (arith, a_to_p_complete id letters)

pub ends_with_dot_sound :
    (s : Text) → ends_with_dot s ≡ true → (front : Text) × (s ≡ front ++ b'.' ∷ [])
unfolding ends_with_dot
ends_with_dot_sound [] h = absurd (ground arith)
ends_with_dot_sound (c ∷ []) h = ([], ground arith)
ends_with_dot_sound (c ∷ (d ∷ s)) h =
    let (front, e) = ends_with_dot_sound (d ∷ s) h in (c ∷ front, ap (λ t. c ∷ t) e)

pub ends_with_dot-append : (front : Text) → ends_with_dot (front ++ b'.' ∷ []) ≡ true
unfolding ends_with_dot
ends_with_dot-append [] = ground arith
ends_with_dot-append (c ∷ []) = ground arith
ends_with_dot-append (c ∷ (d ∷ s)) = ends_with_dot-append (d ∷ s)
