-- ===== src/Worker.antt =====
-- legacy/apps/worker: the weekly refresh.
pub mod Refresh
