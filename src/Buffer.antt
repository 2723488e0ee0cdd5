-- ===== src/Buffer.antt =====
-- The disk buffer of crates/tell/src/buffer.rs.
pub mod Disk
pub mod Wal
pub mod Frames
pub mod Holds
pub mod Drain
pub mod Compact
pub mod Evict
pub mod Append
pub mod Recovery
pub mod Torn
pub mod Crash
pub mod Reopen
mod Tests
