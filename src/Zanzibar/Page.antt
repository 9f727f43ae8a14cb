-- ===== src/Zanzibar/Page.antt =====
-- Bounded, ordered pages of tuples and their cursors (zanzibar/store/store.go and the page methods of
-- zanzibar/store/memory.go).
pub mod Order
pub mod Cursor
pub mod Read
pub mod Sorted
pub mod Strict
pub mod Next
pub mod Scan
pub mod Distinct
pub mod Whole
pub mod Unique
