-- ===== src/IoEngine.antt =====
-- crates/ioengine/src: reading a directory into blocks, and writing the files of received blocks.
pub mod Writer
pub mod Parts
pub mod Reassembly
pub mod Written
pub mod Reader
pub mod ReadLoop
pub mod Submission
pub mod WriteLoop
pub mod ZeroCopy
pub mod Spliced
mod Tests
