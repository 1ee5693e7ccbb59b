-- ===== src/Packer.antt =====
-- crates/ioengine/src/packer.rs: files grouped into blocks, and blocks read back.
pub mod Wire
pub mod Pack
pub mod Manifest
pub mod Blocks
pub mod Pieces
pub mod AllFiles
mod Tests
