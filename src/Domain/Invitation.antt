-- ===== src/Domain/Invitation.antt =====
-- src/domain/workspace_invitation.rs: an invitation by mail to join a workspace as an administrator.
pub mod Types
pub mod Operations
pub mod Invariant
pub mod History
pub mod Finality
pub mod Generations
mod Tests
