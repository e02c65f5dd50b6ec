-- ===== src/Protocol.antt =====
-- src/protocols/opendating/protocol.
pub mod Envelope
pub mod Messages
pub mod Validation
pub mod Routes
pub mod Coverage
pub mod Acceptance
