-- ===== src/Worker.antt =====
-- src/worker.rs: a pushed message is decoded and given to the handler of its type.
pub mod Types
pub mod Data
pub mod Decoding
pub mod Roundtrip
mod Tests
