-- ===== src/Encoding.antt =====
-- The FlatBuffer encoders of crates/tell-encoding/src.
pub mod Helpers
pub mod Reader
pub mod Batch
pub mod Vector
pub mod Event
pub mod Log
pub mod Metric
mod Tests
