-- ===== src/Sender.antt =====
-- crates/protocol/src/sender.rs: the sending side of a session.
pub mod State
pub mod Chunks
pub mod Enqueue
pub mod Queued
pub mod Ack
pub mod Gaps
pub mod Process
pub mod Batch
pub mod InBatch
pub mod Loop
pub mod Coverage
pub mod Rounds
pub mod NoLoss
mod Tests
