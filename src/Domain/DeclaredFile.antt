-- ===== src/Domain/DeclaredFile.antt =====
-- src/domain/declared_upload_file.rs: what an agent declares of a file before it uploads it.
pub mod Formats
pub mod Types
pub mod Rules
pub mod Hex
mod Tests
