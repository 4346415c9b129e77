-- ===== src/Trials/Cleanup.antt =====
-- The clean-up of expired trials: deploy/cloudflare/src/trialCleanupOperations.ts and
-- deploy/cloudflare/src/trialCleanupAdmin.ts.
pub mod Claim
pub mod Report
pub mod Outcomes
