-- ===== src/Tests.antt =====
-- Examples for the theorems on the program of src/.
mod Fixtures
mod Matching
mod Blocking
mod Discovery
mod Members
mod Routing
mod Relaying
mod Payloads
mod Stored
mod Connected
mod Wrapped
