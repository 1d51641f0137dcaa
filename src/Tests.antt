-- ===== src/Tests.antt =====
-- The theorems at concrete inputs of legacy/packages/shared and legacy/packages/analysis-engine.
mod Fixtures
mod Scores
mod Guards
mod Quotes
mod Stages
mod Generated
mod Providers
mod Snapshots
mod Crawlers
mod Uploads
mod Runs
mod Refreshes
mod Requests
mod EarlyStages
