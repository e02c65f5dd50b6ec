-- ===== src/Relay.antt =====
-- src/relay.
pub mod RateLimit
pub mod Kinds
pub mod Filters
pub mod Extensions
pub mod Throttling
pub mod Scopes
pub mod Authorization
