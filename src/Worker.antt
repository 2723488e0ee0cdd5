-- ===== src/Worker.antt =====
-- The background worker of crates/tell/src/worker/mod.rs.
pub mod Defs
pub mod Encode
pub mod Chunks
pub mod Batches
pub mod Drain
pub mod Send
pub mod Flush
pub mod Save
pub mod Queues
pub mod Loop
pub mod New
mod Tests
mod QueueTests
mod LoopTests
