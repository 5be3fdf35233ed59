-- ===== src/Domain/Catalogue.antt =====
-- What a workspace keeps of its compliance: policies, controls and evidence.
pub mod Sorting
pub mod Evidence
pub mod Control
pub mod Policy
pub mod PolicyHistory
mod Tests
