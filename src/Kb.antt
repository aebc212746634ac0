-- ===== src/Kb.antt =====
-- The knowledge base crate: crates/sap-automate-kb/src.
pub mod Headings
pub mod Sections
pub mod DocTree
mod Tests
