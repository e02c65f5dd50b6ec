-- ===== src/Services/Matcher.antt =====
-- Likes and matches: src/protocols/opendating/services/matcher/service.ts.
mod Effects
mod Handlers
unfoldable pub use Effects.*
unfoldable pub use Handlers.*
