-- ===== src/Tests.antt =====
-- The theorems applied at concrete inputs, by part of the program.
pub mod Fixtures
pub mod FeeRuns
pub mod RpcRuns
pub mod ClientRuns
pub mod FileRuns
pub mod SnapshotRuns
pub mod StoreRuns
pub mod ReportRuns
