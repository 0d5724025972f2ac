-- ===== src/Execution/Examples.antt =====
-- The retry loop of server/internal/execution on a provider that is rate limited twice.
use beecon.Base.{
  ℕ, ◌*◌, ◌+◌, ◌^◌, ◌≡◌, ◌≤◌, ◌<◌, ◌⊎◌, refl, true, false, none, some, is_some, arith, ltb,
  if◌then◌else◌,
}
use beecon.Execution.RateLimit.{ToolCallResponse, parse_retry_after, int64_half, atoi, trim_space}
use beecon.Execution.RateLimit.Overflow.{parse_retry_after_lem}
use beecon.Execution.Retry.{Upstream, Run, RetryOutcome, retry_loop, retry_delay, max_attempts}
use beecon.Execution.Retry.Bounds.{Honest, retry_loop-returns, retry_loop-budget, retry_loop-Honest}

abbrev answers : ℕ → ToolCallResponse
answers n = record { status_code = if ltb n 4 then 429 else 200; body = ""; retry_after = "" }

abbrev a_provider : Upstream
a_provider = record {
  attempt = λ n. record { response = answers n; call_err = none };
  now = λ n. n;
  random = λ n. 0;
  sleep = λ n d. none;
  unmarshal = λ t. none;
  parse_time = λ t. none;
}

abbrev at_rest : Run
at_rest = record { tick = 0; attempts = 0; retries = 0; slept = 0 }

abbrev the_outcome : RetryOutcome
the_outcome = record { response = answers 4; call_err = none; exhausted = false; retry_after = 0 }

-- Two waits of half a second, and the third attempt succeeds.
run_provider :
    retry_loop 3 a_provider 1 0 at_rest
    ≡ (some the_outcome, record { tick = 5; attempts = 3; retries = 2; slept = 1_000_000_000 })
unfolding retry_loop beecon.Execution.RateLimit.is_rate_limited parse_retry_after
    beecon.Execution.RateLimit.body_carries_rate_limit_signal
run_provider = refl

retry_loop-returns_example :
    let (o, w') = retry_loop max_attempts a_provider 1 0 at_rest in
    (is_some o ≡ true) × (0 < w'.attempts) × (w'.attempts ≤ 0 + max_attempts)
retry_loop-returns_example = retry_loop-returns a_provider at_rest

retry_loop-Honest_example : Honest a_provider the_outcome
unfolding retry_loop beecon.Execution.RateLimit.is_rate_limited parse_retry_after
    beecon.Execution.RateLimit.body_carries_rate_limit_signal
retry_loop-Honest_example = retry_loop-Honest a_provider 3 at_rest the_outcome refl

-- A provider that asks for ten seconds each time, whatever it answers.
abbrev a_slow_provider : Upstream
a_slow_provider = record {
  attempt = λ n. record {
    response = record { status_code = 429; body = ""; retry_after = "10" };
    call_err = none;
  };
  now = λ n. n;
  random = λ n. 0;
  sleep = λ n d. none;
  unmarshal = λ t. none;
  parse_time = λ t. none;
}

parse_retry_after_lem_example :
    (d : ℕ) × (parse_retry_after (λ t. none) " 10000000000" 5 ≡ some d)
    × (((10_000_000_000 < 9_223_372_037) × (d ≡ 10_000_000_000 * 1_000_000_000) × (d < int64_half))
        ⊎ ((9_223_372_037 ≤ 10_000_000_000) × (int64_half ≤ d)))
unfolding trim_space atoi
parse_retry_after_lem_example =
    parse_retry_after_lem (λ t. none) " 10000000000" 5 10_000_000_000 refl refl (omega arith)

ten_seconds :
    (n tick : ℕ) → retry_delay a_slow_provider (a_slow_provider.attempt n).response tick < 2 ^ 62
unfolding retry_delay parse_retry_after
ten_seconds n tick = omega arith

retry_loop-budget_example : (retry_loop 3 a_slow_provider 1 0 at_rest).1.slept ≤ 30_000_000_000
retry_loop-budget_example = retry_loop-budget a_slow_provider 3 at_rest ten_seconds refl
