-- ===== src/Commands/Documents.antt =====
-- src/application/commands/documents.rs: the commands on documents.
pub mod Types
pub mod Messages
pub mod Worker
pub mod Create
pub mod Complete
pub mod Stored
pub mod Scanning
pub mod Finalizing
pub mod Creation
pub mod Completion
