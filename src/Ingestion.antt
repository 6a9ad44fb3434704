-- ===== src/Ingestion.antt =====
-- src/scryntic/ingestion: the durable spool of raw records, and its reserved lane for recovery
-- metadata.
pub mod Metadata
pub mod Stored
pub mod Intake
