-- ===== src/Authorization/Manager/Invariant/Cooldowns.antt =====
-- The cooldowns of packages/accelerator/core/src/authorization.rs: their cap, and the invariant over the writes to them.
use aztec_accelerator.Prelude.{
  ℕ, ◌≤◌, ◌≡◌, ◌⊎◌, inl, inr, refl, true, not, ◌&&◌, is_some, [], ◌∷◌, ltb, leb, length, nat_eq,
  list_eq, if◌then◌else◌, arith, Option-cases,
}
use aztec_accelerator.Prelude.Lists.{length-keep}
use aztec_accelerator.Prelude.Maps.{
  Map, lookup, insert, length-insert, length-insert-some, length-remove-some,
}
use aztec_accelerator.Prelude.Texts.{Text, text_eq_iff}
use aztec_accelerator.Authorization.Manager.{
  AuthDecision, allow, deny, PendingState, record_cooldown, evict_oldest, soonest, is_cooling_down,
  settle, max_cooldown_entries,
}
use aztec_accelerator.Authorization.Manager.Invariant.{Inv, cooldowns-Inv}

-- The entry that `soonest` picks is one of those it looks through.
soonest-known :
    (best : Text × ℕ) (m : Map Text ℕ)
    → (soonest best m ≡ best) ⊎ (is_some (lookup (soonest best m).0 m) ≡ true)
unfolding soonest lookup
soonest-known best [] = inl refl
soonest-known best ((k, n) ∷ m) = ground (
  arith,
  soonest-known best m,
  soonest-known (k, n) m,
  text_eq_iff k (soonest best m).0,
  text_eq_iff k (soonest (k, n) m).0,
)

soonest-listed :
    (k : Text) (n : ℕ) (m : Map Text ℕ) → is_some (lookup (soonest (k, n) m).0 ((k, n) ∷ m)) ≡ true
unfolding lookup
soonest-listed k n m = ground (arith, soonest-known (k, n) m, text_eq_iff k (soonest (k, n) m).0)

-- Writing to a key that is there makes the map no longer.
length-insert_known :
    (k : Text) (n : ℕ) (m : Map Text ℕ)
    → is_some (lookup k m) ≡ true
    → length (insert k n m) ≤ length m
length-insert_known k n m h = elim (Option-cases (lookup k m)) [
  | inl e ↦ absurd (ground arith)
  | inr (v, e) ↦ length-insert-some k n m v e
]

length-evict_oldest : (e : Text × ℕ) (m : Map Text ℕ) → length (evict_oldest (e ∷ m)) ≤ length m
unfolding evict_oldest
length-evict_oldest (k, n) m =
    let x = (soonest (k, n) m).0 in
    elim (Option-cases (lookup x ((k, n) ∷ m))) [
      | inl e ↦ absurd (ground (arith, soonest-listed k n m))
      | inr (v, e) ↦ omega (arith, length-remove-some x ((k, n) ∷ m) v e)
    ]

record_cooldown-cooled :
    (st : PendingState) (origin : Text) (expiry : ℕ)
    → length st.cooldowns ≤ max_cooldown_entries
    → length (record_cooldown st origin expiry).cooldowns ≤ max_cooldown_entries
unfolding record_cooldown
record_cooldown-cooled st origin expiry h = go st.cooldowns h
  where
    go :
        (m : Map Text ℕ)
        → length m ≤ max_cooldown_entries
        → length (
            insert origin expiry (
              if leb max_cooldown_entries (length m) && not (is_some (lookup origin m))
              then evict_oldest m
              else m))
          ≤ max_cooldown_entries
    go [] k = ground (arith, length-insert origin expiry [])
    go (e ∷ m) k = ground (
      arith,
      length-insert origin expiry (e ∷ m),
      length-insert_known origin expiry (e ∷ m),
      length-insert origin expiry (evict_oldest (e ∷ m)),
      length-evict_oldest e m,
    )

pub record_cooldown-Inv :
    (st : PendingState) (origin : Text) (expiry : ℕ)
    → Inv st
    → Inv (record_cooldown st origin expiry)
record_cooldown-Inv st origin expiry h =
    let fits = record_cooldown-cooled st origin expiry h.cooled in
    unfold record_cooldown in cooldowns-Inv _ h (unfold record_cooldown in fits)

pub settle-Inv :
    (decision : AuthDecision) (st : PendingState) (origin : Text) (now : ℕ)
    → Inv st
    → Inv (settle decision st origin now)
unfolding settle
settle-Inv allow st origin now h = h
settle-Inv deny st origin now h = record_cooldown-Inv st origin _ h

pub is_cooling_down-Inv :
    (st : PendingState) (origin : Text) (now : ℕ) → Inv st → Inv (is_cooling_down st origin now).0
unfolding is_cooling_down
is_cooling_down-Inv st origin now h =
    cooldowns-Inv _ h
      (omega (arith, h.cooled, length-keep (λ (e : Text × ℕ). ltb now e.1) st.cooldowns))
