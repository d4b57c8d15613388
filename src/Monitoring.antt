-- ===== src/Monitoring.antt =====
-- internal/monitoring: the client of Prometheus and Alertmanager, and the status dashboard.
pub mod Types
pub mod Client
pub mod Dashboard
pub mod Tests
