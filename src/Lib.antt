-- ===== src/Lib.antt =====
-- Content gap analysis: a verification library of the deterministic core of the program.
--
-- The program collects a business's sources, cuts them into chunks, asks a language model for signals,
-- needs, coverage and candidate gaps, checks what the model says against the chunks, and publishes the
-- best gaps with their evidence. The model of the language is never trusted: what this library shows
-- is what holds whatever it answers. The packages under legacy/packages are modelled; they run as a
-- pipeline (analysis-engine/src/pipeline.ts) over the tables of database/src/schema.ts, with a provider
-- of the interface in llm/src/types.ts and the rules of shared/src.
--
-- Files, and the code that each models:
--   Prelude: lists, options, Boolean tests, stable sorting, and JavaScript strings as lists of UTF-16
--     code units; no code of the program.
--   Shared.Enums: shared/src/enums.ts. Shared.Priority: shared/src/priority.ts and
--     analysis-engine/src/prioritize.ts. Shared.EvidenceStatus: shared/src/evidence-status.ts.
--     Shared.IdReferences, Shared.Results and Shared.Schemas: shared/src/schemas.ts.
--   Database.Tables: database/src/schema.ts. Llm.Types: llm/src/types.ts.
--   Engine.VerifyEvidence: analysis-engine/src/verify-evidence.ts. Engine.ShadowSample:
--     analysis-engine/src/shadow-sample.ts. Engine.Chunking and Engine.SemanticDedup: `chunkText` and
--     the stage `semantic-dedup` of analysis-engine/src/pipeline.ts.
--   Engine.Retrieval: analysis-engine/src/retrieval.ts, and `cosineSimilarity` of llm/src/embeddings.ts.
--   Engine.Pipeline: the stages of analysis-engine/src/pipeline.ts, on a store of the tables they write, in
--     a monad in which a failure keeps what was written. Normalization: `ingestion` and `normalization`.
--     ChunkStage: `chunking` and `extraction`. DecisionSupport: `decision-support-map`. CoverageMatrix:
--     `coverage-matrix`. Generation: `candidate-generation`. Verification, Critique and Publication: the
--     three stages of these names, which LateStages runs in order. StageLog: `stage`, with the log of
--     analysis-engine/src/logger.ts. RunContext: what `runPipeline` is given, and the stage
--     `semantic-dedup` on the table. Runs: `runPipeline`, all stages in order and the record of the run.
--   Crawler.Robots: crawler/src/robots.ts, one call at a time. Crawler.Csv: the loop of `parseCsv` in
--     crawler/src/parsers.ts, and Crawler.Voc: its objects and `normalizeVocRows`. Shared.Dates:
--     shared/src/dates.ts.
--   Crawler.RateLimiter: crawler/src/rate-limiter.ts. Worker.Refresh: legacy/apps/worker/src/refresh.ts, over
--     the store of Engine.Ingest. Api.Auth: legacy/apps/api/src/auth.ts.
--   Engine.Ingest: analysis-engine/src/ingest.ts, with Shared.Hashing: shared/src/hashing.ts.
--   Llm.Validate: llm/src/validate.ts. Llm.Lexicons, Llm.Heuristics and Llm.Injection:
--     llm/src/heuristics.ts. Llm.FakeProvider: the operations of llm/src/fake-provider.ts.
--   Tests: the theorems at concrete inputs.
--
-- Numbers. Scores, offsets and counts are natural numbers; the components of a ranking are JavaScript
-- numbers, NaN, infinities and fractions included. The offset -1 of a quote that is not found is an
-- absent offset. The coordinates of embeddings, floating-point numbers in the code, are an abstract type
-- with the operations that the code uses. All loops are structural recursion, so no fuel is needed.
--
-- The database. What a statement reads and writes is modelled on lists of rows, in the order of
-- insertion. Two refusals of the schema are modelled: a second snapshot of one source with one hash
-- (the unique index of database/migrations/0000_init.sql), and a text that is no date for a column of
-- dates. Every other statement is taken to succeed: lost connections and full disks are left out. What
-- a stage or an ingestion has written when it throws stays written, since the code uses no transaction.
--
-- Parameters. SHA-256, the ids that the database gives, `toLowerCase`, the replacement by classes of
-- Unicode, the split at what is no letter or digit of Unicode, the embeddings, `Date.parse`,
-- the messages of errors, the texts that the database refuses as dates, the cost of tokens, what a
-- fetch gives, the answer to a request for robots.txt, the parser of addresses and the
-- provider are arguments of the definitions that use them.
--
-- Not modelled: the remote provider, fetching, the user interfaces, the HTTP routes, migrations and
-- demonstration data, which are input and output; the time stamps and the console output of the log;
-- the rules on addresses in shared/src/url.ts, which stand on the parser of addresses; the report of
-- apps/api/src/calibration.ts; the Python backend.
pub mod Api
pub mod Crawler
pub mod Database
pub mod Engine
pub mod Llm
pub mod Prelude
pub mod Shared
pub mod Tests
pub mod Worker
