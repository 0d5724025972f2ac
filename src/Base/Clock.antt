-- ===== src/Base/Clock.antt =====
-- The int64 arithmetic of Go's time package. A time is a number of nanoseconds; a number of type int64
-- is its two's complement, below 2 ^ 64.
use Prim.Native.Nat.{ℕ, ◌+◌, ◌-◌, ◌*◌, ◌%◌, ◌^◌}
use mathlib.Core.Bool.{Bool}
use beecon.Base.Tests.{ltb, if◌then◌else◌}

-- `a < b`.
abbrev pub int64_less : ℕ → ℕ → Bool
int64_less a b = ltb ((a + 2 ^ 63) % 2 ^ 64) ((b + 2 ^ 63) % 2 ^ 64)

-- `time.Duration(n) * time.Second`
abbrev pub seconds_duration : ℕ → ℕ
seconds_duration n = n * 1_000_000_000 % 2 ^ 64

-- `time.Duration(n) * time.Hour`
abbrev pub hours_duration : ℕ → ℕ
hours_duration n = n * 3_600_000_000_000 % 2 ^ 64

-- `t.Add(d)`: from 2 ^ 63 on, a duration is below 0.
abbrev pub add_duration : ℕ → ℕ → ℕ
add_duration t d = if ltb d (2 ^ 63) then t + d else t - (2 ^ 64 - d)
