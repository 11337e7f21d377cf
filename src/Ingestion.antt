-- ===== src/Ingestion.antt =====
-- services/ingestion-service/src: the service that turns uploaded files into chunks.
pub mod Jobs
pub mod Worker
pub mod Router
pub mod Metadata
pub mod Extraction
pub mod Shards
pub mod Single
pub mod Splitter
