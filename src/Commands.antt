-- ===== src/Commands.antt =====
-- src/application/commands: what a request or a message does to the store, in one transaction each.
pub mod Metadata
pub mod Documents
pub mod Transactions
mod Tests
