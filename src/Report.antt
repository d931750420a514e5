-- ===== src/Report.antt =====
-- src/report: cost reports, what is derived from them, and their comparison.
pub mod Root
pub mod Model
pub mod Limits
pub mod Thousands
pub mod Projection
pub mod Summary
pub mod Distribution
pub mod Abi
pub mod Compare
pub mod Advice
pub mod History
pub mod Sensitivity
pub mod Delta
pub mod Batch
