-- ===== src/Services.antt =====
-- src/protocols/opendating/services.
pub mod DmPolicy
pub mod Block
pub mod Matcher
pub mod Discovery
pub mod Profile
pub mod Deletion
pub mod Moderation
pub mod System
