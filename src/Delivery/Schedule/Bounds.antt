-- ===== src/Delivery/Schedule/Bounds.antt =====
-- Facts about the retry schedule of server/internal/delivery/schedule.go.
use beecon.Base.{ℕ, ◌+◌, ◌-◌, ◌*◌, ◌/◌, ◌≤◌, ◌<◌, length, arith}
use native.Mathlib.Nat.{mul-le-mul_right}
use beecon.Delivery.Schedule.{
  after_failure_delays, delay_index, delay_at, jittered_delay, jitter_scale, next_attempt,
}

-- The index that NextAttempt computes lies in the table, whatever the count of attempts.
pub delay_index_in_range : (n : ℕ) → delay_index n < length after_failure_delays
unfolding delay_index after_failure_delays
delay_index_in_range n = ground arith

scaled_le : (k s : ℕ) → k ≤ jitter_scale → k * s / jitter_scale ≤ s
scaled_le k s h = omega (arith, mul-le-mul_right s h)

jittered_delay_bounds :
    (d m : ℕ)
    → m < jitter_scale
    → (9 * (d / 10) ≤ jittered_delay d m) × (jittered_delay d m ≤ d + d / 10)
unfolding jittered_delay
jittered_delay_bounds d m h =
    ground
      (arith, scaled_le (jitter_scale - 2 * m) (d / 10), scaled_le (2 * m - jitter_scale) (d / 10))

-- The next attempt lies within ten per cent of the delay that the table has for the attempts so far.
pub next_attempt_bounds :
    (now n m : ℕ)
    → m < jitter_scale
    → let delay = delay_at after_failure_delays (delay_index n) in
      (now + 9 * (delay / 10) ≤ next_attempt now n m)
      × (next_attempt now n m ≤ now + delay + delay / 10)
unfolding next_attempt
next_attempt_bounds now n m h =
    omega (arith, jittered_delay_bounds (delay_at after_failure_delays (delay_index n)) m h)
