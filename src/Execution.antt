-- ===== src/Execution.antt =====
-- server/internal/execution: the normalized rate limit (ratelimit.go) and the retries (retry.go).
pub mod RateLimit
pub mod Retry
mod Examples
