-- ===== src/Offboarding.antt =====
-- `deactivate_user` of backend/kairos/identity/services.py: its rows, its cascade, and proofs.
pub mod Rows
pub mod Cascade
pub mod Invariant
pub mod Replay
pub mod Queue
