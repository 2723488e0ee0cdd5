-- ===== src/Validation.antt =====
-- crates/tell/src/validation.rs. A `&str` is the list of its UTF-8 bytes, which is what `len` counts.
pub mod Defs
pub mod ApiKey
mod Tests
