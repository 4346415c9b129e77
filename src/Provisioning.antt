-- ===== src/Provisioning.antt =====
-- deploy/cloudflare/src/provisioning.ts, provisioningRetry.ts and nodeOperations.ts.
pub mod Machine
pub mod Inputs
pub mod Placement
pub mod Tenants
pub mod Jobs
pub mod Retry
pub mod DatabaseName
pub mod Names
pub mod Results
pub mod Operations
pub mod Effects
pub mod Protocol
pub mod Replay
pub mod Claimed
pub mod Reports
