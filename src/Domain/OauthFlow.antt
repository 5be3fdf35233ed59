-- ===== src/Domain/OauthFlow.antt =====
-- src/domain/oauth.rs: one OAuth authorization, from the request to the consumption of its code.
pub mod Types
pub mod Operations
pub mod Invariant
pub mod History
pub mod Codes
mod Tests
