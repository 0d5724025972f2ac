-- ===== src/Execution/RateLimit/Overflow.antt =====
-- What ParseRetryAfter of server/internal/execution/ratelimit.go makes of a great number of seconds.
use beecon.Base.{
  ℕ, ◌*◌, ◌%◌, ◌≤◌, ◌<◌, ◌≡◌, String, false, Option, some, arith, str_eq, ◌⊎◌, inl, inr, ltb,
  Bool-cases,
}
use beecon.Execution.RateLimit.{trim_space, atoi, parse_retry_after, int64, int64_half}

-- A Retry-After of seconds below 9_223_372_037 is read as so many seconds; from there up to
-- 18_446_744_073 seconds the int64 product has wrapped around, and the delay is below zero.
pub parse_retry_after_lem :
    (parse_time : String → Option ℕ) (header : String) (now n : ℕ)
    → str_eq (trim_space header) "" ≡ false
    → atoi (trim_space header) ≡ some (false, n)
    → n ≤ 18_446_744_073
    → (d : ℕ) × (parse_retry_after parse_time header now ≡ some d)
      × (((n < 9_223_372_037) × (d ≡ n * 1_000_000_000) × (d < int64_half))
          ⊎ ((9_223_372_037 ≤ n) × (int64_half ≤ d)))
unfolding parse_retry_after
parse_retry_after_lem parse_time header now n some_text read small = (
  n * 1_000_000_000 % int64,
  ground (arith, some_text, read),
  elim (Bool-cases (ltb n 9_223_372_037)) [
    | inl e ↦ inl (ground (arith, e), ground (arith, e), ground (arith, e))
    | inr e ↦ inr (ground (arith, e), ground (arith, e))
  ],
)
