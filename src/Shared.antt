-- ===== src/Shared.antt =====
-- legacy/packages/shared: enums, the payloads, priority, evidence status, the guard on ids.
pub mod Dates
pub mod Enums
pub mod Priority
pub mod EvidenceStatus
pub mod Results
pub mod IdReferences
pub mod Schemas
pub mod Hashing
