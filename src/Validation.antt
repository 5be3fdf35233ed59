-- ===== src/Validation.antt =====
-- src/validation/mod.rs: a result that gathers its errors, and the test on object keys.
pub mod Types
pub mod Five
pub mod Paths
pub mod Canonical
mod Tests
