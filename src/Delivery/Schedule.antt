-- ===== src/Delivery/Schedule.antt =====
-- server/internal/delivery/schedule.go. rand.Float64 returns a multiple m / 2^53 with m below 2^53:
-- `jitter` is that m, and the offset (2 * m / 2^53 - 1) * spread is computed exactly and truncated
-- towards zero as Go's conversion to time.Duration does. Every delay is a multiple of ten
-- nanoseconds, so the spread of a tenth is a whole number.
pub mod Bounds
use beecon.Base.{
  ℕ, zero, suc, ◌+◌, ◌-◌, ◌*◌, ◌/◌, ◌^◌, Bool, List, [], ◌∷◌, length, ltb, leb, if◌then◌else◌,
}

abbrev pub second : ℕ
second = 1_000_000_000

abbrev pub minute : ℕ
minute = 60 * second

abbrev pub hour : ℕ
hour = 60 * minute

abbrev pub max_attempts : ℕ
max_attempts = 10

unfoldable pub after_failure_delays : List ℕ
after_failure_delays =
    (5 * second)
    ∷ (5 * minute)
    ∷ (30 * minute)
    ∷ (2 * hour)
    ∷ (5 * hour)
    ∷ (10 * hour)
    ∷ (14 * hour)
    ∷ (20 * hour)
    ∷ (24 * hour)
    ∷ []

unfoldable pub is_exhausted : ℕ → Bool
is_exhausted attempts = leb max_attempts attempts

-- `index < 0` is where the subtraction of the source goes below zero.
unfoldable pub delay_index : ℕ → ℕ
delay_index attempts_so_far =
    let index : ℕ = attempts_so_far - 1 in
    if leb (length after_failure_delays) index then length after_failure_delays - 1 else index

abbrev pub jitter_scale : ℕ
jitter_scale = 2 ^ 53

-- afterFailureDelays[i]; where Go would panic at an index out of range, this is 0.
unfoldable pub delay_at : List ℕ → ℕ → ℕ
delay_at [] i = 0
delay_at (d ∷ ds) zero = d
delay_at (d ∷ ds) (suc i) = delay_at ds i

-- delay + offset, the offset below zero when the jitter is below one half.
unfoldable pub jittered_delay : ℕ → ℕ → ℕ
jittered_delay delay jitter =
    let spread : ℕ = delay / 10 in
    if ltb (2 * jitter) jitter_scale
    then delay - (jitter_scale - 2 * jitter) * spread / jitter_scale
    else delay + (2 * jitter - jitter_scale) * spread / jitter_scale

unfoldable pub next_attempt : ℕ → ℕ → ℕ → ℕ
unfolding after_failure_delays delay_index delay_at jittered_delay
next_attempt now attempts_so_far jitter =
    now + jittered_delay (delay_at after_failure_delays (delay_index attempts_so_far)) jitter
