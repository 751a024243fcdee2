-- ===== src/Monitoring.antt =====
-- The monitoring pages: client/src/components/monitoring.
pub mod History
