-- ===== src/Domain/BrowserUpload.antt =====
-- The grants by which a browser uploads a document that is not declared beforehand.
pub mod Evidence
pub mod Policy
mod Tests
