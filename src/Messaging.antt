-- ===== src/Messaging.antt =====
-- src/messaging.rs: the messages between the parts of the program, and their JSON envelope.
pub mod Types
pub mod Serde
pub mod Wire
pub mod Written
pub mod Envelope
pub mod Decoding
pub mod Example
mod Tests
