-- ===== src/Congestion.antt =====
-- crates/protocol/src/congestion.rs: the token bucket and the bandwidth profiler.
pub mod Bucket
pub mod Profiler
pub mod Ladder
pub mod Runs
mod Tests
