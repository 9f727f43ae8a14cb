-- ===== src/Zanzibar/Model.antt =====
-- zanzibar/model: the authorization model, its tuples and keys, validation and compilation.
pub mod Types
pub mod Keys
pub mod Validate
pub mod Compile
pub mod Passes
pub mod WellFormed
pub mod Floors
