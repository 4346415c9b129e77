-- ===== src/Cleanup/Effects.antt =====
-- What the batches of the clean-up routes leave in the rows of one clean-up job: its own row, and
-- the row of its lease.
use dsx_control_plane.Base.{ℕ, ◌≡◌, refl, none, some, arith, if◌then◌else◌}
use dsx_control_plane.Text.{Text, ◌==◌}
use dsx_control_plane.Table.{always, or_row, row-append, row-update, row-delete}
use dsx_control_plane.Db.{Db, cleanup_of, cleanup_lease_of}
use dsx_control_plane.Db.States.{CleanupState, same_cleanup}
use dsx_control_plane.Db.Rows.{Tenant, CleanupJob}
use dsx_control_plane.Provisioning.Operations.Report.{renewed_lease}
use dsx_control_plane.Provisioning.Effects.{set_row, cut_row}
use dsx_control_plane.Cleanup.Jobs.{
  Cleanable, new_cleanup, insert_cleanup, queue_cleanup, requeue_cleanup, requeued_cleanup,
}
use dsx_control_plane.Cleanup.Operations.{
  is_under_way, expired_cleanup, expire_cleanup, dispatched_cleanup, dispatch_cleanup,
}
use dsx_control_plane.Cleanup.Report.{
  CleanupOperationResultInput, renew_cleanup_lease, running_cleanup, start_cleanup,
  finished_cleanup, finish_cleanup,
}

module _ (i : Text) where
  pub lease-queue_cleanup :
      (c : Cleanable) (id : Text) (now : ℕ) (db db' : Db)
      → queue_cleanup c id now db ≡ some db'
      → cleanup_lease_of db' i ≡ cleanup_lease_of db i
  unfolding queue_cleanup
  lease-queue_cleanup c id now db db' h = ground arith

  pub job-queue_cleanup :
      (c : Cleanable) (id : Text) (now : ℕ) (db db' : Db)
      → queue_cleanup c id now db ≡ some db'
      → (cleanup_of db id ≡ none)
        × (cleanup_of db' i
            ≡ or_row (cleanup_of db i) (if id == i then some (new_cleanup c id now) else none))
  unfolding queue_cleanup insert_cleanup
  job-queue_cleanup c id now db db' h = (
    ground arith,
    ground (arith, row-append (λ x. x.id) i db.cleanup_jobs (new_cleanup c id now)),
  )

  pub lease-requeue_cleanup :
      (j : CleanupJob) (t : Tenant) (now : ℕ) (db : Db)
      → cleanup_lease_of (requeue_cleanup j t now db) i ≡ cut_row j.id i (cleanup_lease_of db i)
  unfolding requeue_cleanup
  lease-requeue_cleanup j t now db = row-delete (λ l. l.job_id) i j.id db.cleanup_operation_leases

  pub job-requeue_cleanup :
      (j : CleanupJob) (t : Tenant) (now : ℕ) (db : Db)
      → cleanup_of (requeue_cleanup j t now db) i
        ≡ set_row j.id i
            (λ x. same_cleanup x.state CleanupState.failed)
            (requeued_cleanup now)
            (cleanup_of db i)
  unfolding requeue_cleanup
  job-requeue_cleanup j t now db =
      row-update (λ x. x.id) (λ x. same_cleanup x.state CleanupState.failed) (requeued_cleanup now)
        (λ x. refl) i j.id db.cleanup_jobs

  pub lease-expire_cleanup :
      (j : CleanupJob) (k : Text) (now : ℕ) (db : Db)
      → cleanup_lease_of (expire_cleanup j k now db) i ≡ cut_row k i (cleanup_lease_of db i)
  unfolding expire_cleanup
  lease-expire_cleanup j k now db = row-delete (λ l. l.job_id) i k db.cleanup_operation_leases

  pub job-expire_cleanup :
      (j : CleanupJob) (k : Text) (now : ℕ) (db : Db)
      → cleanup_of (expire_cleanup j k now db) i
        ≡ set_row k i (λ x. is_under_way x.state) (expired_cleanup now) (cleanup_of db i)
  unfolding expire_cleanup
  job-expire_cleanup j k now db =
      row-update (λ x. x.id) (λ x. is_under_way x.state) (expired_cleanup now) (λ x. refl) i k
        db.cleanup_jobs

  pub job-dispatch_cleanup :
      (j : CleanupJob) (node : Text) (now : ℕ) (db : Db)
      → cleanup_of (dispatch_cleanup j node now db) i
        ≡ set_row j.id i
            (λ x. same_cleanup x.state CleanupState.queued)
            (dispatched_cleanup now)
            (cleanup_of db i)
  unfolding dispatch_cleanup
  job-dispatch_cleanup j node now db =
      row-update (λ x. x.id) (λ x. same_cleanup x.state CleanupState.queued)
        (dispatched_cleanup now) (λ x. refl) i j.id db.cleanup_jobs

  pub lease-renew_cleanup_lease :
      (k : Text) (until now : ℕ) (db : Db)
      → cleanup_lease_of (renew_cleanup_lease k until now db) i
        ≡ set_row k i always (renewed_lease until now) (cleanup_lease_of db i)
  unfolding renew_cleanup_lease
  lease-renew_cleanup_lease k until now db =
      row-update (λ l. l.job_id) always (renewed_lease until now) (λ l. refl) i k
        db.cleanup_operation_leases

  pub lease-start_cleanup :
      (k : Text) (until now : ℕ) (db : Db)
      → cleanup_lease_of (start_cleanup k until now db) i
        ≡ set_row k i always (renewed_lease until now) (cleanup_lease_of db i)
  unfolding start_cleanup
  lease-start_cleanup k until now db =
      row-update (λ l. l.job_id) always (renewed_lease until now) (λ l. refl) i k
        db.cleanup_operation_leases

  pub job-start_cleanup :
      (k : Text) (until now : ℕ) (db : Db)
      → cleanup_of (start_cleanup k until now db) i
        ≡ set_row k i always (running_cleanup now) (cleanup_of db i)
  unfolding start_cleanup
  job-start_cleanup k until now db =
      row-update (λ x. x.id) always (running_cleanup now) (λ x. refl) i k db.cleanup_jobs

  pub lease-finish_cleanup :
      (input : CleanupOperationResultInput) (j : CleanupJob) (node k : Text) (now : ℕ) (db : Db)
      → cleanup_lease_of (finish_cleanup input j node k now db) i
        ≡ cut_row k i (cleanup_lease_of db i)
  unfolding finish_cleanup
  lease-finish_cleanup input j node k now db =
      row-delete (λ l. l.job_id) i k db.cleanup_operation_leases

  pub job-finish_cleanup :
      (input : CleanupOperationResultInput) (j : CleanupJob) (node k : Text) (now : ℕ) (db : Db)
      → cleanup_of (finish_cleanup input j node k now db) i
        ≡ set_row k i always (finished_cleanup input now) (cleanup_of db i)
  unfolding finish_cleanup
  job-finish_cleanup input j node k now db =
      row-update (λ x. x.id) always (finished_cleanup input now) (λ x. refl) i k db.cleanup_jobs
