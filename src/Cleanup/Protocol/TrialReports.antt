-- ===== src/Cleanup/Protocol/TrialReports.antt =====
-- What a report on the clean-up of a trial, and a retry of one, do at one clean-up job.
use dsx_control_plane.Base.{
  ℕ, ◌≡◌, refl, inl, inr, none, some, arith, Option-cases, Result-cases, ok,
}
use dsx_control_plane.Text.{Text, ==_iff}
use dsx_control_plane.Time.{lease_end}
use dsx_control_plane.Table.{always, row, row-update, row-delete}
use dsx_control_plane.Db.{Db, cleanup_of, cleanup_lease_of}
use dsx_control_plane.Db.States.{CleanupState, same_cleanup}
use dsx_control_plane.Db.Rows.{CleanupJob, Lease}
use dsx_control_plane.Http.{Env, Request}
use dsx_control_plane.Http.Response.{settle}
use dsx_control_plane.Provisioning.Effects.{set_row, cut_row}
use dsx_control_plane.Cleanup.Jobs.{cleanup_of_tenant, requeued_cleanup}
use dsx_control_plane.Cleanup.Report.{
  CleanupReported, running, cleaned, failed, cleanup_state_of, CleanupOperationResultInput,
  finished_cleanup,
}
use dsx_control_plane.Cleanup.Protocol.{cleanup_follows, is_leased}
use dsx_control_plane.Cleanup.Protocol.Claims.{CleanupMovesAt, CleanupMoves-refl}
use dsx_control_plane.Cleanup.Protocol.Batches.{
  holds_cleanup_lease-eq-some, renew_cleanup_lease-Moves, start_cleanup-Moves,
}
use dsx_control_plane.Db.Rows.{Tenant}
use dsx_control_plane.Trials.Cleanup.Claim.{trial_tenant, trial_cleanup_of}
use dsx_control_plane.Trials.Cleanup.Report.{
  current_trial_cleanup, trial_cleanup_retry_eligibility, finish_trial_cleanup, write_trial_cleanup,
  check_trial_report, report_trial_cleanup_result, check_trial_retry, requeue_trial_cleanup,
  retry_trial_cleanup,
}

module _ (i : Text) where
  pub lease-finish_trial_cleanup :
      (input : CleanupOperationResultInput) (j : CleanupJob) (node k : Text) (now : ℕ) (db : Db)
      → cleanup_lease_of (finish_trial_cleanup input j node k now db) i
        ≡ cut_row k i (cleanup_lease_of db i)
  unfolding finish_trial_cleanup
  lease-finish_trial_cleanup input j node k now db =
      row-delete (λ l. l.job_id) i k db.cleanup_operation_leases

  pub job-finish_trial_cleanup :
      (input : CleanupOperationResultInput) (j : CleanupJob) (node k : Text) (now : ℕ) (db : Db)
      → cleanup_of (finish_trial_cleanup input j node k now db) i
        ≡ set_row k i always (finished_cleanup input now) (cleanup_of db i)
  unfolding finish_trial_cleanup
  job-finish_trial_cleanup input j node k now db =
      row-update (λ x. x.id) always (finished_cleanup input now) (λ x. refl) i k db.cleanup_jobs

  lease-requeue_trial_cleanup :
      (j : CleanupJob) (tenant : Text) (now : ℕ) (db : Db)
      → cleanup_lease_of (requeue_trial_cleanup j tenant now db) i
        ≡ cut_row j.id i (cleanup_lease_of db i)
  unfolding requeue_trial_cleanup
  lease-requeue_trial_cleanup j tenant now db =
      row-delete (λ l. l.job_id) i j.id db.cleanup_operation_leases

  job-requeue_trial_cleanup :
      (j : CleanupJob) (tenant : Text) (now : ℕ) (db : Db)
      → cleanup_of (requeue_trial_cleanup j tenant now db) i
        ≡ set_row j.id i
            (λ x. same_cleanup x.state CleanupState.failed)
            (requeued_cleanup now)
            (cleanup_of db i)
  unfolding requeue_trial_cleanup
  job-requeue_trial_cleanup j tenant now db =
      row-update (λ x. x.id) (λ x. same_cleanup x.state CleanupState.failed) (requeued_cleanup now)
        (λ x. refl) i j.id db.cleanup_jobs

  requeue_trial_cleanup-Moves :
      (j : CleanupJob) (tenant : Text) (now : ℕ) (db : Db)
      → cleanup_of db j.id ≡ some j
      → j.state ≡ CleanupState.failed
      → CleanupMovesAt i db (requeue_trial_cleanup j tenant now db)
  unfolding cleanup_follows is_leased
  requeue_trial_cleanup-Moves j tenant now db found s = ground (
    arith,
    job-requeue_trial_cleanup j tenant now db,
    lease-requeue_trial_cleanup j tenant now db,
    ==_iff j.id i,
  )

  finish_trial_cleanup-Moves :
      (input : CleanupOperationResultInput) (j : CleanupJob) (node k : Text) (now : ℕ) (db : Db)
      → cleanup_of db k ≡ some j
      → j.state ≡ CleanupState.running
      → (cleanup_state_of input.state ≡ CleanupState.running → ⊥)
      → CleanupMovesAt i db (finish_trial_cleanup input j node k now db)
  unfolding cleanup_follows is_leased
  finish_trial_cleanup-Moves input j node k now db found s ends = ground (
    arith,
    job-finish_trial_cleanup input j node k now db,
    lease-finish_trial_cleanup input j node k now db,
    ==_iff k i,
    ends,
  )

  module _ (env : Env) (input : CleanupOperationResultInput) (j : CleanupJob) (node k : Text)
      (now : ℕ) (db : Db) (found : cleanup_of db k ≡ some j) (l : Lease)
      (held : cleanup_lease_of db k ≡ some l) where
    write_trial_cleanup-Moves :
        (s : CleanupReported)
        → input.state ≡ s
        → CleanupMovesAt i db (settle db (write_trial_cleanup s env input j node k now db)).1
    unfolding write_trial_cleanup row
    write_trial_cleanup-Moves running e =
        let until = lease_end env.node_operation_lease_seconds now in
        ground (
          arith,
          CleanupMoves-refl (cleanup_of db i) (cleanup_lease_of db i),
          renew_cleanup_lease-Moves i k until now db,
          λ (d : j.state ≡ CleanupState.dispatched).
              start_cleanup-Moves i j k until now db found d l held,
        )
    write_trial_cleanup-Moves cleaned e = ground (
      arith,
      CleanupMoves-refl (cleanup_of db i) (cleanup_lease_of db i),
      λ (d : j.state ≡ CleanupState.running).
          finish_trial_cleanup-Moves input j node k now db found d (λ x. ground arith),
    )
    write_trial_cleanup-Moves failed e = ground (
      arith,
      CleanupMoves-refl (cleanup_of db i) (cleanup_lease_of db i),
      λ (d : j.state ≡ CleanupState.running).
          finish_trial_cleanup-Moves input j node k now db found d (λ x. ground arith),
    )

current_trial_cleanup-found :
    (db : Db) (k node : Text) (j : CleanupJob)
    → current_trial_cleanup db k node ≡ some j
    → cleanup_of db k ≡ some j
unfolding current_trial_cleanup trial_cleanup_of
current_trial_cleanup-found db k node j h = ground arith

pub check_trial_report-held :
    (env : Env) (r : Request) (node k : Text) (now : ℕ) (db : Db)
    (input : CleanupOperationResultInput) (j : CleanupJob)
    → check_trial_report env r node k now db ≡ ok (input, j)
    → (cleanup_of db k ≡ some j) × ((l : Lease) × (cleanup_lease_of db k ≡ some l))
unfolding check_trial_report
check_trial_report-held env r node k now db input j h = (
  current_trial_cleanup-found db k node j (ground arith),
  holds_cleanup_lease-eq-some db k node (env.sha256 input.lease_token) now (ground arith),
)

retried_failed :
    (j : CleanupJob) (t : Tenant)
    → trial_cleanup_retry_eligibility j t ≡ none
    → j.state ≡ CleanupState.failed
unfolding trial_cleanup_retry_eligibility same_cleanup
retried_failed j t h = ground arith

check_trial_retry-failed :
    (env : Env) (r : Request) (tenant : Text) (db : Db) (j : CleanupJob)
    → check_trial_retry env r tenant db ≡ ok j
    → (cleanup_of_tenant db tenant ≡ some j) × (j.state ≡ CleanupState.failed)
unfolding check_trial_retry
check_trial_retry-failed env r tenant db j h = elim (Option-cases (trial_tenant db tenant)) [
  | inl e ↦ absurd (ground arith)
  | inr (t, e) ↦ (ground arith, retried_failed j t (ground arith))
]

module _ (i : Text) where
  pub report_trial_cleanup_result-Moves :
      (env : Env) (r : Request) (node k : Text) (now : ℕ) (db : Db)
      → CleanupMovesAt i db (report_trial_cleanup_result env r node k now db).1
  unfolding report_trial_cleanup_result row
  report_trial_cleanup_result-Moves env r node k now db =
      elim (Result-cases (check_trial_report env r node k now db)) [
        | inl (e, h) ↦ rw (report_trial_cleanup_result, h) (CleanupMoves-refl _ _)
        | inr ((input, j), h) ↦
            let (found, (l, held)) = check_trial_report-held env r node k now db input j h in
            rw (report_trial_cleanup_result, h)
              (write_trial_cleanup-Moves i env input j node k now db found l held input.state refl)
      ]

  pub retry_trial_cleanup-Moves :
      (env : Env) (r : Request) (tenant : Text) (now : ℕ) (db : Db)
      → ((j : CleanupJob) → cleanup_of_tenant db tenant ≡ some j → cleanup_of db j.id ≡ some j)
      → CleanupMovesAt i db (retry_trial_cleanup env r tenant now db).1
  unfolding retry_trial_cleanup row
  retry_trial_cleanup-Moves env r tenant now db keyed =
      elim (Result-cases (check_trial_retry env r tenant db)) [
        | inl (e, h) ↦ rw (retry_trial_cleanup, h) (CleanupMoves-refl _ _)
        | inr (j, h) ↦
            let (found, s) = check_trial_retry-failed env r tenant db j h in
            rw (retry_trial_cleanup, h)
              (requeue_trial_cleanup-Moves i j tenant now db (keyed j found) s)
      ]
