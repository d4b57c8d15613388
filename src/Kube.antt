-- ===== src/Kube.antt =====
-- internal/kube/client.go: the operations on deployments, pods and revisions.
pub mod Types
pub mod Api
pub mod Log
pub mod Polls
pub mod Scale
pub mod Restart
pub mod Rollback
pub mod Listing
pub mod Connect
pub mod Tests
