-- ===== src/Provisioning/Protocol.antt =====
-- The protocol of provisioning jobs, over the routes of deploy/cloudflare/src/provisioning.ts,
-- trials.ts, provisioningRetry.ts, nodeOperations.ts, trialConversion.ts and
-- productionPlacement.ts: the steps that they make on the database,
-- and what relates a job to its lease.
pub mod Batches
pub mod Claims
pub mod Converting
pub mod Moves
use dsx_control_plane.Base.{ℕ, ◌≡◌, Bool, true, false, not, ◌||◌, ◌&&◌, Option, none, some}
use dsx_control_plane.Text.{Text, ◌==◌}
use dsx_control_plane.Db.{Db, job_of, lease_of}
use dsx_control_plane.Db.States.{
  ProvisioningState, queued, placed, dispatched, running, ready, failed, retrying, same_state,
}
use dsx_control_plane.Db.Rows.{ProvisioningJob, Lease}
use dsx_control_plane.Http.{Env, Request}
use dsx_control_plane.Provisioning.Machine.{can_transition}
use dsx_control_plane.Provisioning.Tenants.{create_tenant}
use dsx_control_plane.Provisioning.Jobs.{create_provisioning_job}
use dsx_control_plane.Trials.Requests.{create_trial}
use dsx_control_plane.Provisioning.Retry.{retry_provisioning_job}
use dsx_control_plane.Conversions.Requests.{create_conversion}
use dsx_control_plane.Conversions.Approval.{approve_clean_production_conversion}
use dsx_control_plane.Conversions.Placement.{place_production}
use dsx_control_plane.Provisioning.Operations.{is_in_flight, is_on}
use dsx_control_plane.Provisioning.Operations.Claim.{claim_next_operation}
use dsx_control_plane.Provisioning.Operations.Report.{report_operation_result}

-- One request, whatever its answer.
pub data Step (env : Env) (db : Db) : Db → Type 0 where
  create_tenants :
      (r : Request) (id : Text) (now : ℕ) → Step env db (create_tenant env r id now db).1
  create_jobs :
      (r : Request) (id : Text) (now : ℕ) → Step env db (create_provisioning_job env r id now db).1
  create_trials :
      (r : Request) (id job : Text) (now : ℕ) → Step env db (create_trial env r id job now db).1
  retries :
      (r : Request) (job : Text) (now : ℕ) → Step env db (retry_provisioning_job env r job now db).1
  claims :
      (r : Request) (node token : Text) (now : ℕ)
      → Step env db (claim_next_operation env r node token now db).1
  reports :
      (r : Request) (node job : Text) (now : ℕ)
      → Step env db (report_operation_result env r node job now db).1
  asks :
      (r : Request) (trial id : Text) (now : ℕ)
      → Step env db (create_conversion env r trial id now db).1
  approves :
      (r : Request) (trial conversion target job : Text) (now : ℕ)
      → Step env db (approve_clean_production_conversion env r trial conversion target job now db).1
  places :
      (r : Request) (trial conversion : Text) (now : ℕ)
      → Step env db (place_production env r trial conversion now db).1

pub data Reach (env : Env) (start : Db) : Db → Type 0 where
  here : Reach env start start
  next : {db db' : Db} → Reach env start db → Step env db db' → Reach env start db'

-- A job that an agent may still work on.
unfoldable pub is_open : ProvisioningState → Bool
is_open queued = false
is_open ready = false
is_open failed = false
is_open _ = true

-- A lease belongs to an open job on the same node, and a job in flight has one.
unfoldable pub tracked : Option ProvisioningJob → Option Lease → Bool
unfolding is_in_flight is_open ◌==◌
tracked none none = true
tracked none (some l) = false
tracked (some j) none = not (is_in_flight j.state)
tracked (some j) (some l) = is_open j.state && is_on j.node_id l.node_id

abbrev pub IsTracked : Db → Type 0
IsTracked db = (i : Text) → tracked (job_of db i) (lease_of db i) ≡ true

-- A job stays in its state or follows `TRANSITIONS`; a new one is queued or placed; none goes away.
unfoldable pub follows : Option ProvisioningJob → Option ProvisioningJob → Bool
unfolding same_state can_transition
follows none none = true
follows none (some j) = same_state j.state queued || same_state j.state placed
follows (some j) none = false
follows (some j) (some j') = same_state j.state j'.state || can_transition j.state j'.state

abbrev pub reached_ready : Option ProvisioningJob → Bool
reached_ready none = false
reached_ready (some j) = same_state j.state ready
