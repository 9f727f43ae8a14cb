-- ===== src/Sync.antt =====
-- The sync client (sync/): its gate on serving decisions, and the stream of mutations.
pub mod ServingGate
pub mod Leases
pub mod Client
pub mod Bootstrap
