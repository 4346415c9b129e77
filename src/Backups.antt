-- ===== src/Backups.antt =====
-- Backups of test environments: deploy/cloudflare/src/backups.ts, backupOperations.ts and
-- backupUploadOperations.ts.
pub mod Jobs
pub mod Results
pub mod Operations
pub mod Report
pub mod Uploads
pub mod Created
pub mod Protocol
pub mod Replay
