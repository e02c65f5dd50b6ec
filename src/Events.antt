-- ===== src/Events.antt =====
-- The events of the relay: src/relay-worker.ts, src/config.ts and the filters of
-- src/durable-object.ts.
pub mod Model
pub mod Config
pub mod Store
pub mod Process
pub mod Consistency
pub mod Register
pub mod Versions
pub mod Losses
pub mod Ownership
pub mod Deletions
