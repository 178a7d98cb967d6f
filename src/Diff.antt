-- ===== src/Diff.antt =====
-- internal/diff: the deltas of two runs.
pub mod Delta
pub mod Pixels
