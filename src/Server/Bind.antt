-- ===== src/Server/Bind.antt =====
-- packages/accelerator/core/src/server/bind.rs: binding the port, with a retry while a prior instance
-- still holds it. What the attempts answer, and the times at which the clock is read, are arguments.
use aztec_accelerator.Prelude.{
  ℕ, zero, suc, ◌+◌, ◌-◌, ◌*◌, ◌≤◌, ◌<◌, ◌≡◌, inl, inr, refl, Option, none, some, ◌==◌, nat_eq, ltb,
  if◌then◌else◌, Bool-cases, arith,
}

pub data BindAnswer : Type 0 where
  bound addr_in_use other_error : BindAnswer

-- How the loop ends, with the number of the attempt.
pub data BindOutcome : Type 0 where
  listening failed gave_up : ℕ → BindOutcome

-- `interval.min(remaining)`
abbrev pub sleep_time : ℕ → ℕ → ℕ
sleep_time interval remaining = if ltb interval remaining then interval else remaining

-- The attempts, and the clock behind each; the loop runs on fuel, `none` is its lack.
module _ (answers : ℕ → BindAnswer) (clock : ℕ → ℕ) (deadline : ℕ) where
  bind_answered : BindAnswer → ℕ → Option BindOutcome → Option BindOutcome
  bind_answered bound n retry = some (listening n)
  bind_answered other_error n retry = some (failed n)
  bind_answered addr_in_use n retry = if deadline - clock n == 0 then some (gave_up n) else retry

  unfoldable pub bind_loop : ℕ → ℕ → Option BindOutcome
  unfolding bind_answered
  bind_loop zero n = none
  bind_loop (suc fuel) n = bind_answered (answers n) n (bind_loop fuel (suc n))

  -- Every attempt from the one to the other met a held port, before the deadline.
  abbrev Retried : ℕ → ℕ → Type 0
  Retried n k = (j : ℕ) → n ≤ j → j < k → (answers j ≡ addr_in_use) × (clock j < deadline)

  -- What ends the loop.
  abbrev pub EndsWith : ℕ → BindOutcome → Type 0
  EndsWith n (listening k) = (answers k ≡ bound) × Retried n k
  EndsWith n (failed k) = (answers k ≡ other_error) × Retried n k
  EndsWith n (gave_up k) = (answers k ≡ addr_in_use) × (deadline ≤ clock k) × Retried n k

  none-Retried : (n : ℕ) → Retried n n
  none-Retried n j le lt = absurd (omega arith)

  more-Retried :
      (n k : ℕ) → answers n ≡ addr_in_use → clock n < deadline → Retried (suc n) k → Retried n k
  more-Retried n k used early rest j le lt = elim (Bool-cases (j == n)) [
    | inl e ↦ let same : j ≡ n = ground arith in rw same (used, early)
    | inr e ↦ rest j (ground arith) lt
  ]

  EndsWith-more :
      (n : ℕ) (o : BindOutcome)
      → answers n ≡ addr_in_use
      → clock n < deadline
      → EndsWith (suc n) o
      → EndsWith n o
  EndsWith-more n (listening k) used early (e, rest) = (e, more-Retried n k used early rest)
  EndsWith-more n (failed k) used early (e, rest) = (e, more-Retried n k used early rest)
  EndsWith-more n (gave_up k) used early (e, late, rest) =
      (e, late, more-Retried n k used early rest)

  abbrev Returns : Option BindOutcome → ℕ → Type 0
  Returns result n = (o : BindOutcome) × (result ≡ some o) × EndsWith n o

  answered-Returns :
      (answer : BindAnswer) (n : ℕ) (retry : Option BindOutcome)
      → answers n ≡ answer
      → (answer ≡ addr_in_use → clock n < deadline → Returns retry (suc n))
      → Returns (bind_answered answer n retry) n
  unfolding bind_answered
  answered-Returns bound n retry same again = (listening n, refl, (same, none-Retried n))
  answered-Returns other_error n retry same again = (failed n, refl, (same, none-Retried n))
  answered-Returns addr_in_use n retry same again = elim (Bool-cases (deadline - clock n == 0)) [
    | inl e ↦ rw e (gave_up n, refl, (same, ground arith, none-Retried n))
    | inr e ↦
        let early : clock n < deadline = ground arith in
        let (o, returned, ends) = again refl early in
        rw e (o, returned, EndsWith-more n o same early ends)
  ]

  sleep-progress :
      (interval now next fuel : ℕ)
      → now + sleep_time interval (deadline - now) ≤ next
      → deadline ≤ now + suc fuel * interval
      → deadline ≤ next + fuel * interval
  sleep-progress interval now next fuel slept le =
      elim (Bool-cases (ltb interval (deadline - now))) [
        | inl e ↦ let full : now + interval ≤ next = rw e at slept in omega (arith, full)
        | inr e ↦ let whole : now + (deadline - now) ≤ next = rw e at slept in omega (arith, whole)
      ]

  -- The retry ends. Each sleep lasts at least as long as it was asked to; then, with an attempt for
  -- every interval up to the deadline and one more, the loop returns, whatever the attempts answer:
  -- it listens at the first attempt that binds, fails at the first other error, and gives up only when
  -- the port is still held at the deadline.
  pub bind_with_retry_ends :
      (interval fuel n : ℕ)
      → ((j : ℕ) → clock j + sleep_time interval (deadline - clock j) ≤ clock (suc j))
      → deadline ≤ clock n + fuel * interval
      → (o : BindOutcome) × (bind_loop (suc fuel) n ≡ some o) × EndsWith n o
  unfolding bind_loop
  bind_with_retry_ends interval zero n sleeps le =
      answered-Returns (answers n) n (bind_loop 0 (suc n)) refl (λ used early. absurd (omega arith))
  bind_with_retry_ends interval (suc fuel) n sleeps le =
      answered-Returns (answers n) n (bind_loop (suc fuel) (suc n)) refl (λ used early.
        bind_with_retry_ends interval fuel (suc n) sleeps
          (sleep-progress interval (clock n) (clock (suc n)) fuel (sleeps n) le))
