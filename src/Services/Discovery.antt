-- ===== src/Services/Discovery.antt =====
-- src/protocols/opendating/services/discovery/service.ts.
pub mod Preferences
pub mod Grants
pub mod Cards
pub mod Candidates
