-- ===== src/Zanzibar.antt =====
-- The relationship-based access control engine (zanzibar/).
pub mod Model
pub mod Store
pub mod Check
pub mod Engine
pub mod Page
