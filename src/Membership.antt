-- ===== src/Membership.antt =====
-- src/protocols/opendating/storage/d1/membership.ts.
pub mod Keys
pub mod Members
pub mod Profiles
pub mod Storage
