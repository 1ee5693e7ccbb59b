-- ===== src/Traversal.antt =====
-- crates/traversal/src: STUN, TURN, ICE and hole punching.
pub mod Address
pub mod Stun
pub mod Messages
pub mod Turn
pub mod TurnClient
pub mod Masked
pub mod Discover
pub mod Signed
pub mod Allocate
pub mod Grants
pub mod Channels
pub mod Ice
pub mod Punch
pub mod Priorities
pub mod Pairs
pub mod CheckList
pub mod Attempts
mod Tests
