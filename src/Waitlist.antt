-- ===== src/Waitlist.antt =====
-- backend/kairos/waitlist/services.py: the waitlist entries, the offers and the reclaiming of holds.
pub mod Invariant
pub mod Eligibility
pub mod Entries
pub mod Offers
pub mod Cascade
pub mod Reaper
pub mod Race
