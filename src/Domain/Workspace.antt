-- ===== src/Domain/Workspace.antt =====
-- src/domain/workspace.rs: the tenant and its members.
pub mod Types
pub mod Members
pub mod Invariant
pub mod Adding
pub mod Removal
pub mod Owners
pub mod Verdict
pub mod History
mod Tests
