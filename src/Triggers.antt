-- ===== src/Triggers.antt =====
-- Trigger instances, server/internal/triggers: the entity and the decision of a poll.
pub mod Types
pub mod Watermark
mod Examples
