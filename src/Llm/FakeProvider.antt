-- ===== src/Llm/FakeProvider.antt =====
-- legacy/packages/llm/src/fake-provider.ts: the offline provider, a function of its input.
pub mod Verdicts
pub mod Coverage
pub mod Candidates
pub mod Extraction
pub mod Needs
