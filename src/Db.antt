-- ===== src/Db.antt =====
-- packages/db: the tables and the stores over them.
pub mod Tables
pub mod CaseEvents
pub mod Ledger
