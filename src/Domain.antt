-- ===== src/Domain.antt =====
-- The aggregates of src/domain, one module each.
pub mod Error
pub mod Ids
pub mod Fields
pub mod DeclaredFile
pub mod Permission
pub mod Workspace
pub mod Document
pub mod Invitation
pub mod AgentConnection
pub mod OauthFlow
pub mod Submission
pub mod AgentUpload
pub mod Auditor
pub mod Batch
pub mod BrowserUpload
pub mod Catalogue
pub mod AgentPolicyUpload
pub mod User
