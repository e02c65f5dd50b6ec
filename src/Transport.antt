-- ===== src/Transport.antt =====
-- src/protocols/opendating/transport, with the idempotency store.
pub mod Idempotency
pub mod Registry
pub mod Router
pub mod Delivery
