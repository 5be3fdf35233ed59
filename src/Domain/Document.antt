-- ===== src/Domain/Document.antt =====
-- src/domain/document.rs: a stored file and its way from upload to archive.
pub mod Types
pub mod Lifecycle
pub mod Machine
pub mod History
mod Tests
