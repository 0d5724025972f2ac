-- ===== src/Access.antt =====
-- server/internal/access: the operators of the console and their sessions, the API keys of an
-- organization, and the secrets that sign its webhooks and user tokens.
pub mod Errors
pub mod Operators
pub mod Keys
pub mod Rotation
pub mod KeyFacade
pub mod WebhookSecrets
pub mod UserTokens
mod KeyExamples
pub mod Console
mod Examples
