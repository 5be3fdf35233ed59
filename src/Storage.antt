-- ===== src/Storage.antt =====
-- src/object_storage/mod.rs: the keys of objects.
pub mod Key
pub mod Segments
pub mod KeyRules
mod Tests
