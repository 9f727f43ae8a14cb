-- ===== src/Dpop.antt =====
-- The validator of DPoP proofs (dpop.go).
pub mod Guard
pub mod Validate
pub mod Replay
