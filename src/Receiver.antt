-- ===== src/Receiver.antt =====
-- crates/protocol/src/receiver.rs: the receiving side of a session.
pub mod State
pub mod Heartbeat
pub mod Dispatch
pub mod Transfer
pub mod Probe
pub mod Loop
pub mod Runs
mod Tests
