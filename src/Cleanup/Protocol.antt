-- ===== src/Cleanup/Protocol.antt =====
-- The protocol of clean-up jobs, over the routes of deploy/cloudflare/src/cleanup.ts,
-- cleanupOperations.ts, trialCleanupOperations.ts and trialCleanupAdmin.ts.
pub mod Claims
pub mod Batches
pub mod TrialClaims
pub mod TrialReports
pub mod Moves
use dsx_control_plane.Base.{ℕ, ◌≡◌, Bool, true, false, not, ◌||◌, ◌&&◌, Option, none, some}
use dsx_control_plane.Text.{Text, ◌==◌}
use dsx_control_plane.Db.{Db, cleanup_of, cleanup_lease_of}
use dsx_control_plane.Db.States.{
  CleanupState, queued, dispatched, running, cleaned, failed, same_cleanup,
}
use dsx_control_plane.Db.Rows.{CleanupJob, Lease}
use dsx_control_plane.Http.{Env, Request}
use dsx_control_plane.Cleanup.Jobs.{cleanup_of_tenant, request_cleanup, retry_cleanup}
use dsx_control_plane.Cleanup.Operations.{is_under_way, claim_cleanup_operation}
use dsx_control_plane.Trials.Cleanup.Claim.{claim_trial_cleanup}
use dsx_control_plane.Trials.Cleanup.Report.{report_trial_cleanup_result, retry_trial_cleanup}
use dsx_control_plane.Cleanup.Report.{report_cleanup_result}

-- One request, whatever its answer.
pub data CleanupStep (env : Env) (db : Db) : Db → Type 0 where
  requests :
      (r : Request) (tenant id : Text) (now : ℕ)
      → CleanupStep env db (request_cleanup env r tenant id now db).1
  retries :
      (r : Request) (job : Text) (now : ℕ) → CleanupStep env db (retry_cleanup env r job now db).1
  claims :
      (r : Request) (node token : Text) (now : ℕ)
      → CleanupStep env db (claim_cleanup_operation env r node token now db).1
  reports :
      (r : Request) (node job : Text) (now : ℕ)
      → CleanupStep env db (report_cleanup_result env r node job now db).1
  claims_trial :
      (r : Request) (node token : Text) (now : ℕ)
      → CleanupStep env db (claim_trial_cleanup env r node token now db).1
  reports_trial :
      (r : Request) (node job : Text) (now : ℕ)
      → CleanupStep env db (report_trial_cleanup_result env r node job now db).1
  -- The row that the tenant finds is the one that its id finds, as the primary key says.
  retries_trial :
      (r : Request) (tenant : Text) (now : ℕ)
      → ((j : CleanupJob) → cleanup_of_tenant db tenant ≡ some j → cleanup_of db j.id ≡ some j)
      → CleanupStep env db (retry_trial_cleanup env r tenant now db).1

pub data CleanupReach (env : Env) (start : Db) : Db → Type 0 where
  here : CleanupReach env start start
  next :
      {db db' : Db}
      → CleanupReach env start db
      → CleanupStep env db db'
      → CleanupReach env start db'

-- The life of a clean-up job.
unfoldable pub may_become : CleanupState → CleanupState → Bool
may_become queued dispatched = true
may_become dispatched running = true
may_become dispatched failed = true
may_become running cleaned = true
may_become running failed = true
may_become failed queued = true
may_become _ _ = false

-- A job stays in its state or makes one move; a new one is queued; none goes away.
unfoldable pub cleanup_follows : Option CleanupJob → Option CleanupJob → Bool
unfolding same_cleanup may_become
cleanup_follows none none = true
cleanup_follows none (some j) = same_cleanup j.state queued
cleanup_follows (some j) none = false
cleanup_follows (some j) (some j') = same_cleanup j.state j'.state || may_become j.state j'.state

-- A job has a lease, on its own node, just while it is dispatched or running.
unfoldable pub is_leased : Option CleanupJob → Option Lease → Bool
unfolding is_under_way ◌==◌
is_leased none none = true
is_leased none (some l) = false
is_leased (some j) none = not (is_under_way j.state)
is_leased (some j) (some l) = is_under_way j.state && j.node_id == l.node_id

abbrev pub IsLeased : Db → Type 0
IsLeased db = (i : Text) → is_leased (cleanup_of db i) (cleanup_lease_of db i) ≡ true
