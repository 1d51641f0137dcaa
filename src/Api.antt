-- ===== src/Api.antt =====
-- legacy/apps/api: the tokens of requests.
pub mod Auth
