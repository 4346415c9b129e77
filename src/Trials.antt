-- ===== src/Trials.antt =====
-- Trials: deploy/cloudflare/src/trials.ts and deploy/cloudflare/src/trialExpiration.ts.
pub mod Hostname
pub mod Inputs
pub mod Requests
pub mod Expiration
pub mod Reconciling
pub mod Replay
pub mod Cleanup
