-- ===== src/Database.antt =====
-- legacy/packages/database: the rows of the tables.
pub mod Tables
