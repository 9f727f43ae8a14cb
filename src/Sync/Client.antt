-- ===== src/Sync/Client.antt =====
-- The sync client (sync/sync.go, sync/status.go).
pub mod State
pub mod Apply
pub mod Stream
pub mod Waits
pub mod Token
pub mod Versions
pub mod Overlaid
