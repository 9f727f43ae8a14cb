-- ===== src/Zanzibar/Check.antt =====
-- zanzibar/check: the traversal that decides a check, what it decides, and that it ends.
pub mod Checker
pub mod Grants
pub mod Sound
pub mod Visits
pub mod Misses
pub mod Complete
pub mod Ends
pub mod Universe
pub mod Decides
pub mod Granted
pub mod Meaning
pub mod OverMemory
pub mod ContextStore
pub mod Overlay
pub mod Held
pub mod Listing
pub mod Listed
