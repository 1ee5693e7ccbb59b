-- ===== src/Direct.antt =====
-- The direct mode of crates/cli/src/send.rs and crates/cli/src/receive.rs.
pub mod Framing
pub mod Stream
pub mod Send
pub mod Sent
pub mod Delivery
pub mod Directory
pub mod Unframed
mod Tests
