-- ===== src/Connections.antt =====
-- server/internal/connections: a user's authorization of an integration, from the connect link through
-- the OAuth handshake, token refresh and reconciliation to the tokens that an execution gets.
pub mod Types
pub mod Errors
pub mod Memory
pub mod Ports
pub mod Facade
pub mod Templates
pub mod Refresh
pub mod Handshake
pub mod Access
pub mod History
pub mod Invariant
mod Examples
