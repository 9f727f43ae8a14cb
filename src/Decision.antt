-- ===== src/Decision.antt =====
-- The decision log (decision/).
pub mod Log
pub mod Queue
