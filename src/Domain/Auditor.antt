-- ===== src/Domain/Auditor.antt =====
-- The access of auditors: src/domain/auditor_access_grant.rs, auditor_access_session.rs and
-- auditor_auth_transaction.rs.
pub mod Email
pub mod Grant
pub mod GrantRules
pub mod Session
pub mod SessionRules
pub mod Transaction
pub mod TransactionRules
mod Tests
