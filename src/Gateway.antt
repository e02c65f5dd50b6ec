-- ===== src/Gateway.antt =====
-- The OpenDating extension of the relay: src/protocols/opendating/extension.ts with the gift wraps
-- and the identities of the services.
pub mod Identities
pub mod Wraps
pub mod Incoming
pub mod Extension
pub mod Requests
pub mod Layers
pub mod Opening
