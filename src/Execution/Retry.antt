-- ===== src/Execution/Retry.antt =====
-- The retry loop of server/internal/execution/retry.go.
pub mod Bounds
use beecon.Base.{
  ℕ, zero, suc, ◌+◌, ◌*◌, ◌%◌, String, Bool, true, false, not, ◌||◌, Option, none, some, List, [],
  ◌∷◌, ltb, leb, if◌then◌else◌,
}
use beecon.Httpx.Errors.{Error}
use beecon.Execution.RateLimit.{
  ToolCallResponse, RateLimitBody, is_rate_limited, parse_retry_after, int64, int64_half,
}

abbrev pub max_attempts : ℕ
max_attempts = 3

abbrev pub retry_budget : ℕ
retry_budget = 30_000_000_000

abbrev pub jitter_backoff_min : ℕ
jitter_backoff_min = 500_000_000

abbrev pub jitter_backoff_max : ℕ
jitter_backoff_max = 2_000_000_000

-- One attempt's answer: a response, and an error where the call failed.
pub record Answer : Type 0 where
  pub response : ToolCallResponse
  pub call_err : Option Error

-- What the loop reaches: the provider, the clock, the random source, and a sleep that a cancelled
-- context ends with an error. Each is a function of the number of calls made so far.
pub record Upstream : Type 0 where
  pub attempt : ℕ → Answer
  pub now : ℕ → ℕ
  pub random : ℕ → ℕ
  pub sleep : ℕ → ℕ → Option Error
  pub unmarshal : String → Option RateLimitBody
  pub parse_time : String → Option ℕ

-- What a run leaves behind: the attempts made, the retries reported to `onRetry`, and the time that
-- was slept in all.
pub record Run : Type 0 where
  pub tick : ℕ
  pub attempts : ℕ
  pub retries : ℕ
  pub slept : ℕ

pub record RetryOutcome : Type 0 where
  pub response : ToolCallResponse
  pub call_err : Option Error
  pub exhausted : Bool
  pub retry_after : ℕ

abbrev or_jitter : ℕ → Option ℕ → ℕ
or_jitter jitter none = jitter
or_jitter jitter (some delay) = delay

-- rand.Int64N(span) is `random`, which lies below the span of a second and a half.
unfoldable pub retry_delay : Upstream → ToolCallResponse → ℕ → ℕ
retry_delay u response tick =
    or_jitter (jitter_backoff_min + u.random tick)
      (parse_retry_after u.parse_time response.retry_after (u.now tick))

-- `a > b` of two int64 values.
unfoldable pub exceeds : ℕ → ℕ → Bool
exceeds a b = ltb ((b + int64_half) % int64) ((a + int64_half) % int64)

-- A round of the loop ends it with an outcome, or goes on with the time waited so far.
pub data Round : Type 0 where
  done : RetryOutcome → Run → Round
  again : (waited : ℕ) → Run → Round

abbrev failed_call : Option Error → Bool
failed_call none = false
failed_call (some _) = true

abbrev slept_then : ToolCallResponse → ℕ → Run → Option Error → Round
slept_then response waited w none = again waited w
slept_then response waited w (some e) =
    done (record { response = response; call_err = some e; exhausted = false; retry_after = 0 }) w

-- The wait before the next attempt, once this one was rate limited.
unfoldable pub wait_round : Upstream → ℕ → ℕ → ToolCallResponse → Run → Round
unfolding retry_delay exceeds
wait_round u i waited response w =
    let delay : ℕ = retry_delay u response w.tick in
    let waited' : ℕ = (waited + delay) % int64 in
    if leb max_attempts i || exceeds waited' retry_budget
    then done
        (record { response = response; call_err = none; exhausted = true; retry_after = delay }) w
    else slept_then response waited'
        (record w { tick = suc w.tick; retries = suc w.retries; slept = w.slept + delay })
        (u.sleep w.tick delay)

unfoldable pub round : Upstream → ℕ → ℕ → Run → Round
unfolding wait_round
round u i waited w =
    let answer : Answer = u.attempt w.tick in
    let w' : Run = record w { tick = suc w.tick; attempts = suc w.attempts } in
    if failed_call answer.call_err || not (is_rate_limited u.unmarshal answer.response)
    then done
        (record {
          response = answer.response;
          call_err = answer.call_err;
          exhausted = false;
          retry_after = 0;
        })
        w'
    else wait_round u i waited answer.response w'

-- `for i := 1; ; i++`, on fuel: `none` is a loop that has run out of it.
unfoldable pub retry_loop : ℕ → Upstream → ℕ → ℕ → Run → Option RetryOutcome × Run
unfolding round
retry_loop zero u i waited w = (none, w)
retry_loop (suc fuel) u i waited w = elim (round u i waited w) [
  | done outcome w' ↦ (some outcome, w')
  | again waited' w' ↦ retry_loop fuel u (suc i) waited' w'
]
