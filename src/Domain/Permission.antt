-- ===== src/Domain/Permission.antt =====
-- src/domain/permission.rs: the permissions of an agent, their names, the set of them in one byte,
-- and the canonical order of a requested list.
pub mod Names
pub mod Bits
pub mod Canonical
pub mod RoundTrip
pub mod Members
pub mod Order
mod Tests
