-- ===== src/Plugin.antt =====
-- internal/plugin: what an external harness pushes.
pub mod Schema
pub mod Map
