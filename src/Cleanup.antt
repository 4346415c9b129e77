-- ===== src/Cleanup.antt =====
-- The clean-up of test environments: deploy/cloudflare/src/cleanup.ts and
-- deploy/cloudflare/src/cleanupOperations.ts.
pub mod Jobs
pub mod Operations
pub mod Report
pub mod Effects
pub mod Protocol
pub mod Requests
pub mod Outcomes
