-- ===== src/Domain/AgentPolicyUpload.antt =====
-- src/domain/agent_policy_document_upload_grant.rs: the grant by which an agent uploads a declared
-- file for a policy.
pub mod Types
pub mod Operations
pub mod Rules
pub mod History
