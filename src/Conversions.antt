-- ===== src/Conversions.antt =====
-- The conversion of a trial into a production environment:
-- deploy/cloudflare/src/trialConversion.ts, productionPlacement.ts and trialConversionReconcile.ts.
pub mod Slug
pub mod Inputs
pub mod Requests
pub mod Approval
pub mod Placement
pub mod Reconcile
pub mod Slugs
pub mod Effects
pub mod Untouched
pub mod Protocol
pub mod Placed
pub mod Approved
pub mod Replay
pub mod Agreement
pub mod Mirror
