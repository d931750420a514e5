-- ===== src/Fee.antt =====
-- src/report/fee_calc.rs: fees in stroops.
pub mod Scaled
pub mod Breakdown
pub mod Percent
pub mod Xlm
pub mod Range
