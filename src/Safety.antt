-- ===== src/Safety.antt =====
-- What the services promise together.
pub mod Policy
pub mod Blocking
pub mod Likes
pub mod Matching
pub mod Rematching
pub mod Visibility
pub mod Deletion
pub mod Moderation
pub mod Eligible
pub mod Candidates
pub mod Seen
pub mod Preferences
pub mod Maintenance
pub mod Adults
