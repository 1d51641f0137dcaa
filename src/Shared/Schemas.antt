-- ===== src/Shared/Schemas.antt =====
-- legacy/packages/shared/src/schemas.ts: the payloads that a language model returns, and the checks
-- and transformations of their zod schemas. A value of a record here has the right keys and types;
-- what is left for a schema to do is to trim texts and to test lengths, ids and numbers.
pub mod Payloads
pub mod Parsing
pub mod Encoding
