-- ===== src/Cleanup/Protocol/Batches.antt =====
-- Each batch moves each clean-up job along its life, and keeps jobs and leases together.
use dsx_control_plane.Base.{ℕ, ◌≡◌, inl, inr, true, some, arith, Option-cases}
use dsx_control_plane.Text.{Text, ==_iff}
use dsx_control_plane.Db.{Db, cleanup_of, cleanup_lease_of}
use dsx_control_plane.Db.States.{CleanupState}
use dsx_control_plane.Db.Rows.{Tenant, CleanupJob, Lease}
use dsx_control_plane.Cleanup.Jobs.{Cleanable, queue_cleanup, requeue_cleanup}
use dsx_control_plane.Cleanup.Report.{
  CleanupOperationResultInput, renew_cleanup_lease, start_cleanup, finish_cleanup,
  holds_cleanup_lease, cleanup_state_of,
}
use dsx_control_plane.Cleanup.Report.{holds_cleanup_lease}
use dsx_control_plane.Cleanup.Effects.{
  lease-queue_cleanup, job-queue_cleanup, lease-requeue_cleanup, job-requeue_cleanup,
  lease-renew_cleanup_lease, lease-start_cleanup, job-start_cleanup, lease-finish_cleanup,
  job-finish_cleanup,
}
use dsx_control_plane.Cleanup.Protocol.{cleanup_follows, is_leased}
use dsx_control_plane.Cleanup.Protocol.Claims.{CleanupMovesAt}

pub holds_cleanup_lease-eq-some :
    (db : Db) (k node hash : Text) (now : ℕ)
    → holds_cleanup_lease db k node hash now ≡ true
    → (l : Lease) × (cleanup_lease_of db k ≡ some l)
unfolding holds_cleanup_lease
holds_cleanup_lease-eq-some db k node hash now h = elim (Option-cases (cleanup_lease_of db k)) [
  | inl e ↦ absurd (ground arith)
  | inr found ↦ found
]

module _ (i : Text) where
  pub queue_cleanup-Moves :
      (c : Cleanable) (id : Text) (now : ℕ) (db db' : Db)
      → queue_cleanup c id now db ≡ some db'
      → CleanupMovesAt i db db'
  unfolding cleanup_follows is_leased
  queue_cleanup-Moves c id now db db' h = ground (
    arith,
    job-queue_cleanup i c id now db db' h,
    lease-queue_cleanup i c id now db db' h,
    ==_iff id i,
  )

  pub requeue_cleanup-Moves :
      (j : CleanupJob) (t : Tenant) (now : ℕ) (db : Db)
      → cleanup_of db j.id ≡ some j
      → j.state ≡ CleanupState.failed
      → CleanupMovesAt i db (requeue_cleanup j t now db)
  unfolding cleanup_follows is_leased
  requeue_cleanup-Moves j t now db found s =
      ground
        (arith, job-requeue_cleanup i j t now db, lease-requeue_cleanup i j t now db, ==_iff j.id i)

  pub renew_cleanup_lease-Moves :
      (k : Text) (until now : ℕ) (db : Db)
      → CleanupMovesAt i db (renew_cleanup_lease k until now db)
  unfolding cleanup_follows is_leased renew_cleanup_lease
  renew_cleanup_lease-Moves k until now db =
      ground (arith, lease-renew_cleanup_lease i k until now db)

  pub start_cleanup-Moves :
      (j : CleanupJob) (k : Text) (until now : ℕ) (db : Db)
      → cleanup_of db k ≡ some j
      → j.state ≡ CleanupState.dispatched
      → (l : Lease) → cleanup_lease_of db k ≡ some l
      → CleanupMovesAt i db (start_cleanup k until now db)
  unfolding cleanup_follows is_leased
  start_cleanup-Moves j k until now db found s l held =
      ground (
        arith,
        job-start_cleanup i k until now db,
        lease-start_cleanup i k until now db,
        ==_iff k i,
      )

  pub finish_cleanup-Moves :
      (input : CleanupOperationResultInput) (j : CleanupJob) (node k : Text) (now : ℕ) (db : Db)
      → cleanup_of db k ≡ some j
      → j.state ≡ CleanupState.running
      → (cleanup_state_of input.state ≡ CleanupState.running → ⊥)
      → CleanupMovesAt i db (finish_cleanup input j node k now db)
  unfolding cleanup_follows is_leased
  finish_cleanup-Moves input j node k now db found s ends = ground (
    arith,
    job-finish_cleanup i input j node k now db,
    lease-finish_cleanup i input j node k now db,
    ==_iff k i,
    ends,
  )
