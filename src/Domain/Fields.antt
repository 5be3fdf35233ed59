-- ===== src/Domain/Fields.antt =====
-- src/domain/validation.rs: the checks on single fields.
pub mod Required
pub mod Filename
pub mod Portable
pub mod FilenameRules
pub mod FilenamePath
mod Tests
