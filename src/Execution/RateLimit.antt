-- ===== src/Execution/RateLimit.antt =====
-- server/internal/execution/ratelimit.go. A time.Duration is an int64: here a number below 2^64 that
-- stands for itself less 2^64 from 2^63 on. json.Unmarshal and http.ParseTime are arguments.
pub mod Overflow
use Prim.Native.String.{◌∷◌ as cons_text, [] as no_text}
use Prim.Native.Char.{code}
use Prim.Native.Nat.{min}
use beecon.Base.{
  ℕ, suc, ◌+◌, ◌-◌, ◌*◌, ◌%◌, ◌^◌, String, Bool, true, false, not, ◌&&◌, ◌||◌, Option, none, some,
  List, [], ◌∷◌, ltb, leb, ◌==◌, str_eq, if◌then◌else◌,
}

-- What ToolCallResponse carries of a response.
pub record ToolCallResponse : Type 0 where
  pub status_code : ℕ
  pub body : String
  pub retry_after : String

-- The fields error.code, error.innerError.code and category.
pub record RateLimitBody : Type 0 where
  pub code : String
  pub inner_code : String
  pub category : String

unfoldable pub is_throttle_code : String → Bool
is_throttle_code code = str_eq code "TooManyRequests" || str_eq code "activityLimitReached"

abbrev hubspot_rate_limit_category : String
hubspot_rate_limit_category = "RATE_LIMITS"

unfoldable pub body_carries_rate_limit_signal : (String → Option RateLimitBody) → String → Bool
unfolding is_throttle_code
body_carries_rate_limit_signal unmarshal body = elim (unmarshal body) [
  | none ↦ false
  | some parsed ↦
      if is_throttle_code parsed.code || is_throttle_code parsed.inner_code
      then true
      else str_eq parsed.category hubspot_rate_limit_category
]

unfoldable pub is_rate_limited : (String → Option RateLimitBody) → ToolCallResponse → Bool
is_rate_limited unmarshal response =
    if response.status_code == 429
    then true
    else body_carries_rate_limit_signal unmarshal response.body

abbrev pub int64 : ℕ
int64 = 2 ^ 64

abbrev pub int64_half : ℕ
int64_half = 2 ^ 63

-- unicode.IsSpace.
unfoldable pub is_space : ℕ → Bool
is_space c =
    (leb 9 c && leb c 13)
    || (c == 32)
    || (c == 133)
    || (c == 160)
    || (c == 5760)
    || (leb 8192 c && leb c 8202)
    || (c == 8232)
    || (c == 8233)
    || (c == 8239)
    || (c == 8287)
    || (c == 12_288)

unfoldable pub trim_left : String → String
unfolding is_space
trim_left no_text = ""
trim_left (cons_text c s) =
    let rest = trim_left s in if is_space (code c) then rest else cons_text c s

-- The space at the end goes where nothing but space follows.
unfoldable pub trim_right : String → String
unfolding is_space
trim_right no_text = ""
trim_right (cons_text c s) =
    let rest = trim_right s in if is_space (code c) && str_eq rest "" then "" else cons_text c rest

-- strings.TrimSpace
unfoldable pub trim_space : String → String
unfolding trim_left trim_right
trim_space s = trim_right (trim_left s)

-- A row of decimal digits, read on from `value`.
unfoldable pub digits : ℕ → String → Option ℕ
digits value no_text = some value
digits value (cons_text c s) =
    let rest = digits (10 * value + (code c - 48)) s in
    if leb 48 (code c) && leb (code c) 57 then rest else none

abbrev unsigned : String → Option ℕ
unsigned s = if str_eq s "" then none else digits 0 s

abbrev in_range : Bool → ℕ → Option ℕ → Option (Bool × ℕ)
in_range negative limit none = none
in_range negative limit (some n) = if leb n limit then some (negative, n) else none

-- strconv.Atoi: the sign and the magnitude of an int64.
unfoldable pub atoi : String → Option (Bool × ℕ)
unfolding digits
atoi no_text = none
atoi (cons_text c s) =
    if code c == 45
    then in_range true int64_half (unsigned s)
    else if code c == 43
    then in_range false (int64_half - 1) (unsigned s)
    else in_range false (int64_half - 1) (unsigned (cons_text c s))

abbrev second : ℕ
second = 1_000_000_000

abbrev pub date_delay : Option ℕ → ℕ → Option ℕ
date_delay none now = none
date_delay (some when) now = some (min (when - now) (int64_half - 1))

-- The `seconds` branch multiplies in int64; an HTTP date in the past gives no delay, and time.Time.Sub
-- stops at the greatest int64.
unfoldable pub parse_retry_after : (String → Option ℕ) → String → ℕ → Option ℕ
unfolding atoi trim_space
parse_retry_after parse_time header now =
    let trimmed : String = trim_space header in
    if str_eq trimmed "" then none else elim (atoi trimmed) [
      | some (negative, seconds) ↦
          if negative && not (seconds == 0) then none else some (seconds * second % int64)
      | none ↦ date_delay (parse_time trimmed) now
    ]
