-- ===== src/Httpx.antt =====
-- server/internal/httpx: the error type that facades return, and the pagination cursor.
pub mod Errors
