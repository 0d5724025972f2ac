-- ===== src/Execution/Retry/Bounds.antt =====
-- How often and how long the retry loop of server/internal/execution/retry.go calls and waits.
use beecon.Base.{
  ℕ, zero, suc, ◌+◌, ◌%◌, ◌^◌, ◌≤◌, ◌<◌, ◌≡◌, ◌⊎◌, refl, subst, true, false, some, is_some, arith,
  inl, inr,
}
use beecon.Execution.RateLimit.{is_rate_limited, int64, int64_half}
use beecon.Execution.Retry.{
  Upstream, Run, RetryOutcome, Round, done, again, max_attempts, retry_budget, retry_delay, exceeds,
  wait_round, round, retry_loop, failed_call,
}

module _ (u : Upstream) where
  round-attempts :
      (i waited : ℕ) (w : Run) (waited' : ℕ) (w' : Run)
      → round u i waited w ≡ again waited' w'
      → (w'.attempts ≡ suc w.attempts) × (i < max_attempts)
  unfolding round wait_round
  round-attempts i waited w waited' w' h = ground arith

  round-done :
      (i waited : ℕ) (w : Run) (o : RetryOutcome) (w' : Run)
      → round u i waited w ≡ done o w'
      → w'.attempts ≡ suc w.attempts
  unfolding round wait_round
  round-done i waited w o w' h = ground arith

  Round-cases :
      (r : Round)
      → ((o : RetryOutcome) × (w : Run) × (r ≡ done o w)) ⊎ ((d : ℕ) × (w : Run) × (r ≡ again d w))
  Round-cases (done o w) = inl (o, w, refl)
  Round-cases (again d w) = inr (d, w, refl)

  loop_returns :
      (fuel i waited : ℕ) (w : Run)
      → i ≤ max_attempts
      → max_attempts < i + fuel
      → let (o, w') = retry_loop fuel u i waited w in
        (is_some o ≡ true)
        × (w.attempts < w'.attempts)
        × (w'.attempts + i ≤ w.attempts + max_attempts + 1)
  unfolding retry_loop
  loop_returns zero i waited w h k = absurd (omega arith)
  loop_returns (suc fuel) i waited w h k = elim (Round-cases (round u i waited w)) [
    | inl (o, w', e) ↦ rw (e, retry_loop) (ground (arith, round-done i waited w o w' e))
    | inr (d, w', e) ↦
        let (more, early) = round-attempts i waited w d w' e in
        let rest = loop_returns fuel (suc i) d w' early (omega (arith, k)) in
        rw (e, retry_loop) (rest.0, omega (arith, rest, more), omega (arith, rest, more))
  ]

  exceeds_lem : (a : ℕ) → a < int64_half → exceeds a retry_budget ≡ false → a ≤ retry_budget
  unfolding exceeds
  exceeds_lem a h e = ground arith

  -- The time that is slept counts towards the budget, and stays within it.
  record Waits (waited : ℕ) (w : Run) : Type 0 where
    counted : w.slept ≡ waited
    within : waited ≤ retry_budget

  module _ (short : (n tick : ℕ) → retry_delay u (u.attempt n).response tick < 2 ^ 62) where
    again-Waits :
        (i waited : ℕ) (w : Run) (d : ℕ) (w' : Run)
        → round u i waited w ≡ again d w'
        → Waits waited w
        → Waits d w'
    unfolding round wait_round
    again-Waits i waited w d w' h k =
        let delay = retry_delay u (u.attempt w.tick).response (suc w.tick) in
        let brief : delay < 2 ^ 62 = short w.tick (suc w.tick) in
        let slept : w'.slept ≡ w.slept + delay = ground arith in
        let total : d ≡ (waited + delay) % int64 = ground arith in
        let sum : d ≡ waited + delay = omega (arith, total, brief, k.within) in
        let allowed : exceeds d retry_budget ≡ false = ground arith in
        record {
          counted = omega (arith, slept, sum, k.counted);
          within = exceeds_lem d (omega (arith, sum, brief, k.within)) allowed;
        }

    ends_within :
        (i waited : ℕ) (w : Run) (o : RetryOutcome) (w' : Run)
        → round u i waited w ≡ done o w'
        → Waits waited w
        → w'.slept ≤ retry_budget
    unfolding round wait_round
    ends_within i waited w o w' h k =
        let delay = retry_delay u (u.attempt w.tick).response (suc w.tick) in
        let brief : delay < 2 ^ 62 = short w.tick (suc w.tick) in
        ground (arith, k.within, k.counted, exceeds_lem ((waited + delay) % int64))

    loop_within :
        (fuel i waited : ℕ) (w : Run)
        → Waits waited w
        → (retry_loop fuel u i waited w).1.slept ≤ retry_budget
    unfolding retry_loop
    loop_within zero i waited w k = omega (arith, k.within, k.counted)
    loop_within (suc fuel) i waited w k = elim (Round-cases (round u i waited w)) [
      | inl (o, w', e) ↦ rw (e, retry_loop) (ends_within i waited w o w' e k)
      | inr (d, w', e) ↦
          rw (e, retry_loop) (loop_within fuel (suc i) d w' (again-Waits i waited w d w' e k))
    ]

  -- What an outcome says of the response it carries.
  abbrev pub Honest : RetryOutcome → Type 0
  Honest o =
      ((o.exhausted ≡ true) × (is_rate_limited u.unmarshal o.response ≡ true))
      ⊎ ((o.exhausted ≡ false) × (failed_call o.call_err ≡ true))
      ⊎ ((o.exhausted ≡ false)
          × (failed_call o.call_err ≡ false)
          × (is_rate_limited u.unmarshal o.response ≡ false))

  round-Honest :
      (i waited : ℕ) (w : Run) (o : RetryOutcome) (w' : Run)
      → round u i waited w ≡ done o w'
      → Honest o
  unfolding round wait_round
  round-Honest i waited w o w' h = ground arith

  loop-Honest :
      (fuel i waited : ℕ) (w : Run) (o : RetryOutcome)
      → (retry_loop fuel u i waited w).0 ≡ some o
      → Honest o
  unfolding retry_loop
  loop-Honest zero i waited w o h = ground arith
  loop-Honest (suc fuel) i waited w o h = elim (Round-cases (round u i waited w)) [
    | inl (o', w', e) ↦
        let same : o' ≡ o = ground (arith, e) in subst Honest same (round-Honest i waited w o' w' e)
    | inr (d, w', e) ↦ loop-Honest fuel (suc i) d w' o (ground (arith, e))
  ]

-- Fuel for three rounds is enough: from its start the loop comes to an outcome, and it has made at
-- least one attempt and at most three.
pub retry_loop-returns :
    (u : Upstream) (w : Run)
    → let (o, w') = retry_loop max_attempts u 1 0 w in
      (is_some o ≡ true) × (w.attempts < w'.attempts) × (w'.attempts ≤ w.attempts + max_attempts)
retry_loop-returns u w =
    let all = loop_returns u max_attempts 1 0 w (omega arith) (omega arith) in
    (all.0, all.1, omega (arith, all))

-- The loop sleeps for thirty seconds at most in all, as long as no delay that an answer of the
-- provider asks for reaches 2^62 nanoseconds, which is 146 years.
pub retry_loop-budget :
    (u : Upstream) (fuel : ℕ) (w : Run)
    → ((n tick : ℕ) → retry_delay u (u.attempt n).response tick < 2 ^ 62)
    → w.slept ≡ 0
    → (retry_loop fuel u 1 0 w).1.slept ≤ 30_000_000_000
retry_loop-budget u fuel w short none_yet =
    loop_within u short fuel 1 0 w (record { counted = none_yet; within = omega arith })

-- An outcome is marked exhausted only with a response that is a rate limit, and an outcome that is not
-- marked carries the error of a call or of a sleep, or a response that is no rate limit.
pub retry_loop-Honest :
    (u : Upstream) (fuel : ℕ) (w : Run) (o : RetryOutcome)
    → (retry_loop fuel u 1 0 w).0 ≡ some o
    → Honest u o
retry_loop-Honest u fuel w o = loop-Honest u fuel 1 0 w o
