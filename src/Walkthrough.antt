-- ===== src/Walkthrough.antt =====
-- internal/walkthrough: a goal-directed pass, and comparing it to the one before.
pub mod Regression
pub mod Refresh
pub mod Generator
