-- ===== src/Outbox.antt =====
-- src/persistence/outbox.rs: the table of the messages that are still to be published.
pub mod Rows
pub mod Table
pub mod Ordering
pub mod Lookup
pub mod Keys
pub mod Due
pub mod Count
pub mod Listing
pub mod Readable
