-- ===== src/Sdk.antt =====
-- The SDK's read path: the gates before the policy, the decisions and their log (the package at the root).
pub mod Safeconv
pub mod Gate
pub mod Decide
pub mod Audit
pub mod Quiet
pub mod Sessions
pub mod Revoked
pub mod Writer
pub mod AccessList
pub mod Members
pub mod Granted
