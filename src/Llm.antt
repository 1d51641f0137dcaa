-- ===== src/Llm.antt =====
-- legacy/packages/llm: the provider of a language model, its offline version, and its checks.
pub mod Types
pub mod Validate
pub mod Lexicons
pub mod Heuristics
pub mod Injection
pub mod FakeProvider
