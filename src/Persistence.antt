-- ===== src/Persistence.antt =====
-- src/persistence: the rows of documents, and the store that a transaction reads and writes.
pub mod DocumentRecord
pub mod Database
pub mod Saving
pub mod Work
