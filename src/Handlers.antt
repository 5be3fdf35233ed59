-- ===== src/Handlers.antt =====
-- src/handlers: what the worker does with a message.
pub mod Payload
pub mod Scan
pub mod Settled
pub mod Redelivery
pub mod Reading
pub mod Finalization
pub mod Promotion
mod Tests
