-- ===== src/App.antt =====
-- internal/app: the alerter and the alert poller.
pub mod Alerter
pub mod DbAdapter
pub mod Poller
mod Tests
