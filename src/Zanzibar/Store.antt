-- ===== src/Zanzibar/Store.antt =====
-- zanzibar/store: the tuple store in memory, its pages, and the overlay of context tuples.
pub mod Memory
pub mod Index
pub mod Reads
pub mod Queries
pub mod Floors
pub mod Runs
pub mod Replace
pub mod Tx
pub mod Diff
pub mod Replaced
