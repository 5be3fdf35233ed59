-- ===== src/Dequeuer.antt =====
-- src/dequeuer/mod.rs: it publishes the rows of the outbox that are due, and retries those that fail.
pub mod Publishing
pub mod Run
pub mod Retry
pub mod Kept
pub mod Lossless
pub mod History
pub mod Delivery
pub mod Counting
pub mod Draining
mod Tests
