-- ===== src/Rpc/Client.antt =====
-- src/rpc/client.rs: the client of an RPC endpoint. A log, a verbose print and the wait of the rate
-- limiter are left out.
pub mod Dedup
pub mod Wait
pub mod Url
pub mod Headers
pub mod Post
pub mod Call
