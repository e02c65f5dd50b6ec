-- ===== src/Connection.antt =====
-- The Durable Object that holds the connections: `RelayWebSocket` of src/durable-object.ts.
pub mod State
pub mod Matching
pub mod Cache
pub mod Broadcast
pub mod Checks
pub mod Publish
pub mod Subscribe
pub mod Auth
pub mod Socket
pub mod Outcomes
pub mod Induction
pub mod Answers
pub mod Stores
pub mod Admitted
pub mod Admission
pub mod Blocks
pub mod Replay
pub mod Sessions
pub mod Reach
pub mod Turns
pub mod Vouching
pub mod Revival
pub mod Relaying
