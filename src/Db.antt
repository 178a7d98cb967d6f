-- ===== src/Db.antt =====
-- internal/db: the tables of runs, walkthroughs and targets, and the statements on them.
pub mod Table
pub mod Runs
pub mod Walkthroughs
pub mod Targets
