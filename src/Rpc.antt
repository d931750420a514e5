-- ===== src/Rpc.antt =====
-- src/rpc: the parts that decide whether, when and where a request is sent.
pub mod Breaker
pub mod Retry
pub mod Client
pub mod Simulate
