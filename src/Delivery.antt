-- ===== src/Delivery.antt =====
-- server/internal/delivery: the outbound webhook channel. The children model types.go, schedule.go,
-- signing.go, errors.go, port.go, facade.go and driven/memory/repository.go.
pub mod Types
pub mod Schedule
pub mod Memory
pub mod Signing
pub mod Ports
pub mod Endpoints
pub mod Outbox
pub mod Dispatch
pub mod Operations
mod Examples
