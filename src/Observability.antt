-- ===== src/Observability.antt =====
-- crates/sap-automate-observability/src: the audit log.
pub mod Audit
mod Tests
