-- ===== src/Cloud.antt =====
-- The Cloud API (cloud-api/app).
pub mod Db
pub mod Http
pub mod Access
pub mod Status
pub mod Allowlist
pub mod Tunnel
pub mod Console
pub mod Notifier
pub mod Batches
pub mod Jobs
pub mod Writes
pub mod Tree
pub mod Readings
pub mod Reconcile
pub mod Results
pub mod Creation
pub mod Alerts
pub mod Updates
pub mod Lifecycle
pub mod TrendSamples
pub mod Retirement
pub mod Mapping
pub mod Poll
