-- ===== src/Domain/AgentConnection.antt =====
-- src/domain/agent_connection.rs: the standing of one agent client for one user in one workspace.
pub mod Types
pub mod Operations
pub mod Invariant
pub mod History
pub mod Authority
mod Tests
