-- ===== src/Sack.antt =====
-- crates/protocol/src/sack.rs: the SACK bitmap (`SackPayload`) and the heartbeat scheduler.
pub mod Payload
pub mod Flags
pub mod Window
pub mod Mark
pub mod Advance
pub mod Missing
pub mod Wire
pub mod Manager
pub mod Arrivals
pub mod History
mod Tests
