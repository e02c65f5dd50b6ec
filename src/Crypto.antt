-- ===== src/Crypto.antt =====
-- src/protocols/opendating/crypto and the key handling of storage/d1/membership.ts.
pub mod Hex
pub mod Padding
pub mod Payload
pub mod Unpadding
pub mod RoundTrip
