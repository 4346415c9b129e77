-- ===== src/Cleanup/Protocol/Moves.antt =====
-- Every route moves each clean-up job along its life, and keeps jobs and leases together.
use mathlib.Core.Path.{subst}
use dsx_control_plane.Base.{
  Result-cases, ℕ, ◌≡◌, refl, sym, inl, inr, true, some, arith, Option-cases, ok,
}
use dsx_control_plane.Text.{Text}
use dsx_control_plane.Time.{lease_end}
use dsx_control_plane.Table.{row, key-row}
use dsx_control_plane.Db.{Db, cleanup_of, cleanup_lease_of}
use dsx_control_plane.Db.States.{CleanupState}
use dsx_control_plane.Db.Rows.{Tenant, CleanupJob, Lease}
use dsx_control_plane.Http.{Env, Request}
use dsx_control_plane.Http.Response.{settle}
use dsx_control_plane.Cleanup.Jobs.{
  check_request, queue_cleanup, request_cleanup, check_cleanup_retry, retry_cleanup,
}
use dsx_control_plane.Cleanup.Report.{
  CleanupOperationResultInput, CleanupReported, running, cleaned, failed, write_cleanup,
  check_cleanup_report, report_cleanup_result,
}
use dsx_control_plane.Cleanup.Protocol.{
  CleanupStep, requests, retries, claims, reports, claims_trial, reports_trial, retries_trial,
  CleanupReach, here, next, IsLeased, cleanup_follows,
}
use dsx_control_plane.Cleanup.Protocol.Claims.{
  CleanupMovesAt, CleanupMoves-refl, claim_cleanup_operation-Moves,
}
use dsx_control_plane.Cleanup.Protocol.Batches.{
  holds_cleanup_lease-eq-some, queue_cleanup-Moves, requeue_cleanup-Moves,
  renew_cleanup_lease-Moves, start_cleanup-Moves, finish_cleanup-Moves,
}
use dsx_control_plane.Cleanup.Protocol.TrialClaims.{claim_trial_cleanup-Moves}
use dsx_control_plane.Cleanup.Protocol.TrialReports.{
  report_trial_cleanup_result-Moves, retry_trial_cleanup-Moves,
}

pub check_cleanup_retry-failed :
    (env : Env) (r : Request) (k : Text) (db : Db) (j : CleanupJob) (t : Tenant)
    → check_cleanup_retry env r k db ≡ ok (j, t)
    → (cleanup_of db k ≡ some j) × (j.state ≡ CleanupState.failed)
unfolding check_cleanup_retry
check_cleanup_retry-failed env r k db j t h = (ground arith, ground arith)

pub check_cleanup_report-held :
    (env : Env) (r : Request) (node k : Text) (now : ℕ) (db : Db)
    (input : CleanupOperationResultInput) (j : CleanupJob)
    → check_cleanup_report env r node k now db ≡ ok (input, j)
    → (cleanup_of db k ≡ some j) × ((l : Lease) × (cleanup_lease_of db k ≡ some l))
unfolding check_cleanup_report
check_cleanup_report-held env r node k now db input j h = (
  ground arith,
  holds_cleanup_lease-eq-some db k node (env.sha256 input.lease_token) now (ground arith),
)

module _ (i : Text) where
  request_cleanup-Moves :
      (env : Env) (r : Request) (tenant id : Text) (now : ℕ) (db : Db)
      → CleanupMovesAt i db (request_cleanup env r tenant id now db).1
  unfolding request_cleanup row
  request_cleanup-Moves env r tenant id now db =
      elim (Result-cases (check_request env r tenant db)) [
        | inl (e, h) ↦ rw (request_cleanup, h) (CleanupMoves-refl _ _)
        | inr (c, h) ↦ elim (Option-cases (queue_cleanup c id now db)) [
          | inl k ↦ rw (request_cleanup, h, k) (CleanupMoves-refl _ _)
          | inr (db', k) ↦ rw (request_cleanup, h, k) (queue_cleanup-Moves i c id now db db' k)
        ]
      ]

  retry_cleanup-Moves :
      (env : Env) (r : Request) (k : Text) (now : ℕ) (db : Db)
      → CleanupMovesAt i db (retry_cleanup env r k now db).1
  unfolding retry_cleanup row
  retry_cleanup-Moves env r k now db = elim (Result-cases (check_cleanup_retry env r k db)) [
    | inl (e, h) ↦ rw (retry_cleanup, h) (CleanupMoves-refl _ _)
    | inr ((j, t), h) ↦
        let (found, s) = check_cleanup_retry-failed env r k db j t h in
        let same = key-row (λ x. x.id) k db.cleanup_jobs {r = j} found in
        rw (retry_cleanup, h)
          (requeue_cleanup-Moves i j t now db
            (subst (λ x. cleanup_of db x ≡ some j) (sym same) found) s)
  ]

  module _ (env : Env) (input : CleanupOperationResultInput) (j : CleanupJob) (node k : Text)
      (now : ℕ) (db : Db) (found : cleanup_of db k ≡ some j) (l : Lease)
      (held : cleanup_lease_of db k ≡ some l) where
    write_cleanup-Moves :
        (s : CleanupReported)
        → input.state ≡ s
        → CleanupMovesAt i db (settle db (write_cleanup s env input j node k now db)).1
    unfolding write_cleanup row
    write_cleanup-Moves running e =
        let until = lease_end env.node_operation_lease_seconds now in
        ground (
          arith,
          CleanupMoves-refl (cleanup_of db i) (cleanup_lease_of db i),
          renew_cleanup_lease-Moves i k until now db,
          λ (d : j.state ≡ CleanupState.dispatched).
              start_cleanup-Moves i j k until now db found d l held,
        )
    write_cleanup-Moves cleaned e = ground (
      arith,
      CleanupMoves-refl (cleanup_of db i) (cleanup_lease_of db i),
      λ (d : j.state ≡ CleanupState.running).
          finish_cleanup-Moves i input j node k now db found d (λ x. ground arith),
    )
    write_cleanup-Moves failed e = ground (
      arith,
      CleanupMoves-refl (cleanup_of db i) (cleanup_lease_of db i),
      λ (d : j.state ≡ CleanupState.running).
          finish_cleanup-Moves i input j node k now db found d (λ x. ground arith),
    )

  report_cleanup_result-Moves :
      (env : Env) (r : Request) (node k : Text) (now : ℕ) (db : Db)
      → CleanupMovesAt i db (report_cleanup_result env r node k now db).1
  unfolding report_cleanup_result row
  report_cleanup_result-Moves env r node k now db =
      elim (Result-cases (check_cleanup_report env r node k now db)) [
        | inl (e, h) ↦ rw (report_cleanup_result, h) (CleanupMoves-refl _ _)
        | inr ((input, j), h) ↦
            let (found, (l, held)) = check_cleanup_report-held env r node k now db input j h in
            rw (report_cleanup_result, h)
              (write_cleanup-Moves env input j node k now db found l held input.state refl)
      ]

  CleanupStep-Moves :
      (env : Env) (db : Db) {db' : Db} → CleanupStep env db db' → CleanupMovesAt i db db'
  CleanupStep-Moves env db (requests r tenant id now) = request_cleanup-Moves env r tenant id now db
  CleanupStep-Moves env db (retries r job now) = retry_cleanup-Moves env r job now db
  CleanupStep-Moves env db (claims r node token now) =
      claim_cleanup_operation-Moves i env node token now r db
  CleanupStep-Moves env db (claims_trial r node token now) =
      claim_trial_cleanup-Moves i env node token now r db
  CleanupStep-Moves env db (reports_trial r node job now) =
      report_trial_cleanup_result-Moves i env r node job now db
  CleanupStep-Moves env db (retries_trial r tenant now keyed) =
      retry_trial_cleanup-Moves i env r tenant now db keyed
  CleanupStep-Moves env db (reports r node job now) =
      report_cleanup_result-Moves env r node job now db

-- Whatever the request about a clean-up, of a test environment or of a trial, and its answer, each
-- clean-up job keeps its state or makes one move of its life (queued, dispatched, running, cleaned; failed from dispatched or running; queued again from
-- failed), no job goes away, and a job that appears is queued.
pub CleanupStep-follows :
    (env : Env) (db db' : Db)
    → CleanupStep env db db'
    → (i : Text) → cleanup_follows (cleanup_of db i) (cleanup_of db' i) ≡ true
CleanupStep-follows env db db' s i = (CleanupStep-Moves i env db s).follow

-- From a database in which a clean-up job has a lease, on its own node, just while it is dispatched
-- or running, any sequence of requests about clean-ups, of test environments or of trials, leads to
-- such a database. (A retry for a trial finds its job by the tenant, and that row is the row of its
-- id.)
pub CleanupReach-IsLeased :
    (env : Env) (start db : Db) → CleanupReach env start db → IsLeased start → IsLeased db
CleanupReach-IsLeased env start db here t i = t i
CleanupReach-IsLeased env start db (next {db = before} reach step) t i =
    (CleanupStep-Moves i env before step).track (CleanupReach-IsLeased env start before reach t i)
