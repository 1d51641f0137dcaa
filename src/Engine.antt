-- ===== src/Engine.antt =====
-- legacy/packages/analysis-engine: evidence checks, chunking, selection, ingestion, the pipeline.
pub mod VerifyEvidence
pub mod Chunking
pub mod ShadowSample
pub mod SemanticDedup
pub mod Pipeline
pub mod Ingest
pub mod Retrieval
