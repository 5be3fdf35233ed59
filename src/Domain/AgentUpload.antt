-- ===== src/Domain/AgentUpload.antt =====
-- src/domain/agent_evidence_upload_grant.rs: the grant by which an agent uploads a declared file.
pub mod Types
pub mod Operations
pub mod Rules
pub mod History
mod Tests
