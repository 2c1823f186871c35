-- ===== src/Examples.antt =====
-- The theorems about backend/kairos at concrete bookings, entries, offers and keys.
pub mod Data
pub mod Bookings
pub mod Waitlist
pub mod Reaping
pub mod Idempotency
pub mod Engine
pub mod Authorization
pub mod Series
pub mod Monitoring
pub mod Offboarding
pub mod Policy
pub mod Endpoints
