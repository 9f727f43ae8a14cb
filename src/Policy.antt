-- ===== src/Policy.antt =====
-- policy/engine/: the policy engine around OPA.
pub mod Document
pub mod Paths
pub mod Data
pub mod Contract
pub mod Decisions
pub mod Engine
pub mod Granted
pub mod Decided
pub mod Held
