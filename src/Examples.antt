-- ===== src/Examples.antt =====
-- Concrete models, stores and gates, at which the theorems are applied.
mod Data
mod Check
mod Store
mod Model
mod Sync
mod Engine
mod Listing
mod Pages
mod Client
mod Tracked
mod Boot
mod Hmac
mod Policy
mod Granted
mod Fallback
mod Sdk
