-- ===== src/Ingest.antt =====
-- crates/sap-automate-ingest: what the crawler and the ingestion pipeline rely on.
pub mod RateLimit
pub mod Chunker
pub mod Robots
mod Tests
