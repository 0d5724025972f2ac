-- ===== src/Delivery/Dispatch/Outcome.antt =====
-- What an attempt makes of an event: applyAttemptOutcome of server/internal/delivery/facade.go, over
-- one attempt and over a row of failing ones.
use beecon.Base.{
  ℕ, ◌+◌, ◌*◌, ◌/◌, ◌≤◌, ◌<◌, ◌≡◌, ◌↔◌, Bool, true, false, ◌&&◌, List, [], ◌∷◌, length, arith, All,
  leb, if◌then◌else◌,
}
use beecon.Delivery.Types.{Event, pending, delivered, failed}
use beecon.Delivery.Schedule.{
  after_failure_delays, delay_at, delay_index, is_exhausted, jitter_scale, next_attempt,
}
use beecon.Delivery.Schedule.Bounds.{next_attempt_bounds}
use beecon.Delivery.Ports.{Reply}
use beecon.Delivery.Dispatch.{apply_attempt_outcome, is_success_status, no_error}

-- The receiver answered, with a status from 200 to 299.
abbrev pub succeeded : Reply → Bool
succeeded reply = no_error reply.error && is_success_status reply.status

-- The n-th attempt makes an event DELIVERED exactly when the receiver answered with a 2xx status,
-- FAILED exactly when it did not and n is at least 10, and PENDING again otherwise; and whatever came
-- back, the event counts n attempts and keeps the time of this one.
pub apply_attempt_outcome_lem :
    (e : Event) (reply : Reply) (now n jitter : ℕ)
    → let e' = apply_attempt_outcome e reply now n jitter in
      ((e'.status ≡ delivered) ↔ (succeeded reply ≡ true))
      × ((e'.status ≡ failed) ↔ ((succeeded reply ≡ false) × (10 ≤ n)))
      × ((e'.status ≡ pending) ↔ ((succeeded reply ≡ false) × (n < 10)))
      × (e'.attempts ≡ n)
unfolding apply_attempt_outcome is_exhausted
apply_attempt_outcome_lem e reply now n jitter = ground arith

delay_positive : (n : ℕ) → 5_000_000_000 ≤ delay_at after_failure_delays (delay_index n)
unfolding delay_at after_failure_delays delay_index
delay_positive n = ground arith

-- A retry comes at least four and a half seconds after the attempt that failed, and within ten per
-- cent of the delay that the table has for the count of attempts, for each jitter that the random
-- source can give.
pub retry_time :
    (e : Event) (reply : Reply) (now n jitter : ℕ)
    → jitter < jitter_scale
    → (apply_attempt_outcome e reply now n jitter).status ≡ pending
    → let delay = delay_at after_failure_delays (delay_index n) in
      let at = (apply_attempt_outcome e reply now n jitter).next_attempt_at in
      (now + 4_500_000_000 ≤ at) × (now + 9 * (delay / 10) ≤ at) × (at ≤ now + delay + delay / 10)
unfolding apply_attempt_outcome
retry_time e reply now n jitter h p =
    ground (arith, next_attempt_bounds now n jitter h, delay_positive n)

delay_grows :
    (n : ℕ)
    → 1 ≤ n
    → n ≤ 7
    → let delay = λ (k : ℕ). delay_at after_failure_delays (delay_index k) in
      delay n + delay n / 10 < 9 * (delay (n + 1) / 10)
unfolding delay_at after_failure_delays delay_index
delay_grows n h k = ground arith

-- Up to the eighth attempt each retry waits longer than the one before, whatever two jitters the
-- random source gives.
pub backoff_grows :
    (now now' n m m' : ℕ)
    → m < jitter_scale
    → m' < jitter_scale
    → 1 ≤ n
    → n ≤ 7
    → next_attempt now n m + now' < next_attempt now' (n + 1) m' + now
backoff_grows now now' n m m' h h' lo hi = omega (
  arith,
  next_attempt_bounds now n m h,
  next_attempt_bounds now' (n + 1) m' h',
  delay_grows n lo hi,
)

-- One answer of the receiver, with the time and the jitter of the attempt.
pub record Attempt : Type 0 where
  pub reply : Reply
  pub now : ℕ
  pub jitter : ℕ

-- An event attempted over and over, as attemptDelivery counts its attempts.
unfoldable pub attempt_all : Event → List Attempt → Event
attempt_all e [] = e
attempt_all e (a ∷ rest) =
    attempt_all (apply_attempt_outcome e a.reply a.now (e.attempts + 1) a.jitter) rest

-- Attempts that all fail are counted, and leave an event PENDING while it has fewer than ten of them
-- behind it, and FAILED from the tenth on.
pub attempt_all-failing :
    (e : Event) (a : Attempt) (rest : List Attempt)
    → All (λ x. succeeded x.reply ≡ false) (a ∷ rest)
    → let e' = attempt_all e (a ∷ rest) in
      (e'.attempts ≡ e.attempts + length (a ∷ rest))
      × (e'.status ≡ (if leb 10 (e.attempts + length (a ∷ rest)) then failed else pending))
unfolding attempt_all apply_attempt_outcome is_exhausted
attempt_all-failing e a [] h = ground (arith, h.0)
attempt_all-failing e a (b ∷ bs) h =
    let e₁ = apply_attempt_outcome e a.reply a.now (e.attempts + 1) a.jitter in
    let counted : e₁.attempts ≡ e.attempts + 1 = ground arith in
    ground (arith, attempt_all-failing e₁ b bs h.1)
