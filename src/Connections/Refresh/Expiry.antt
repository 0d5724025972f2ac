-- ===== src/Connections/Refresh/Expiry.antt =====
-- tokenExpiryFrom of server/internal/connections/refresh.go on large numbers of seconds.
use beecon.Base.{ℕ, ◌+◌, ◌*◌, ◌≤◌, ◌<◌, ◌≡◌, ◌⊎◌, inl, inr, arith, ltb, Bool-cases}
use beecon.Connections.Refresh.{token_expiry_from}

-- A provider's lifetime of up to 9_223_372_036 seconds is added to the time as it is; a longer one, up
-- to 18_446_744_073 seconds, wraps around in the int64 of a time.Duration, and the token counts as run
-- out at once.
pub token_expiry_from_lem :
    (now seconds : ℕ)
    → 0 < seconds
    → seconds ≤ 18_446_744_073
    → ((seconds < 9_223_372_037) × (token_expiry_from now seconds ≡ now + seconds * 1_000_000_000))
      ⊎ ((9_223_372_037 ≤ seconds) × (token_expiry_from now seconds ≤ now))
unfolding token_expiry_from
token_expiry_from_lem now seconds some_time small = elim (Bool-cases (ltb seconds 9_223_372_037)) [
  | inl e ↦ inl (ground arith, ground arith)
  | inr e ↦ inr (ground arith, ground arith)
]
