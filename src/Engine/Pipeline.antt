-- ===== src/Engine/Pipeline.antt =====
-- legacy/packages/analysis-engine/src/pipeline.ts: the stages of `runPipeline`.
pub mod Store
pub mod Normalization
pub mod ChunkStage
pub mod DecisionSupport
pub mod CoverageMatrix
pub mod Verification
pub mod Titles
pub mod Critique
pub mod Publication
pub mod LateStages
pub mod Generation
pub mod StageLog
pub mod RunContext
pub mod Runs
