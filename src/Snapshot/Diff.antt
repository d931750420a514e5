-- ===== src/Snapshot/Diff.antt =====
-- src/config_snapshot/diff.rs: comparing two snapshots.
pub mod Explanation
pub mod Field
pub mod Sections
pub mod Report
pub mod Csv
pub mod Exact
pub mod Complete
pub mod Pricing
pub mod ExitCode
