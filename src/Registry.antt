-- ===== src/Registry.antt =====
-- The registry service of server/internal/registryservice, which publishes bundles of tools.
pub mod Types
pub mod Errors
pub mod Versions
pub mod Diff
pub mod Store
pub mod Facade
mod Examples
