-- ===== src/Zanzibar/Engine.antt =====
-- zanzibar: the engine over models, the tuple store and the notifier.
pub mod State
pub mod Cache
pub mod Revisions
pub mod Fence
pub mod Steps
pub mod Tuples
pub mod Writes
pub mod Deletes
pub mod Floor
pub mod Bounded
pub mod Pages
pub mod CanDelete
pub mod Lists
