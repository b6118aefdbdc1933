-- ===== src/Dashboard.antt =====
-- pkg/dashboard: what the dashboard watches.
pub mod Health
