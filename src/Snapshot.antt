-- ===== src/Snapshot.antt =====
-- src/config_snapshot: snapshots of the network's pricing configuration and their comparison.
pub mod Model
pub mod Diff
pub mod Same
pub mod Schema
pub mod Payload
pub mod History
pub mod Prune
pub mod Store
