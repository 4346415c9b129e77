-- ===== src/Provisioning/Protocol/Batches.antt =====
-- Each batch moves each job along `TRANSITIONS`, and keeps jobs and leases together.
use dsx_control_plane.Base.{ℕ, ◌≡◌, refl, true, false, Option, none, some, List, arith}
use dsx_control_plane.Text.{Text, ==_iff}
use dsx_control_plane.Db.{Db, job_of, lease_of}
use dsx_control_plane.Db.States.{placed, dispatched, running, failed}
use dsx_control_plane.Db.Rows.{Template, Tenant, ProvisioningJob, Lease}
use dsx_control_plane.Provisioning.Machine.{can_transition}
use dsx_control_plane.Provisioning.Jobs.{place_job}
use dsx_control_plane.Trials.Requests.{TrialPlan, add_trial}
use dsx_control_plane.Provisioning.Retry.{requeue}
use dsx_control_plane.Provisioning.Results.{OperationResultInput, state_of}
use dsx_control_plane.Provisioning.Operations.{is_on, dispatch_job}
use dsx_control_plane.Provisioning.Operations.Report.{
  renew_lease, start_job, finish_job, is_running,
}
use dsx_control_plane.Provisioning.Effects.{
  lease-place_job, job-place_job, lease-add_trial, job-add_trial, lease-requeue, job-requeue,
  lease-dispatch_job, job-dispatch_job, lease-renew_lease, lease-start_job, job-start_job,
  lease-finish_job, job-finish_job,
}
use dsx_control_plane.Conversions.Approval.{Approval, approve}
use dsx_control_plane.Conversions.Placement.{ProductionPlacement, place_target, is_placeable}
use dsx_control_plane.Conversions.Effects.{
  lease-approve, job-approve, lease-place_target, job-place_target,
}
use dsx_control_plane.Provisioning.Protocol.{tracked, follows}

-- What one step does at one job.
pub record Moves (j : Option ProvisioningJob) (l : Option Lease) (j' : Option ProvisioningJob)
    (l' : Option Lease) : Type 0 where
  pub follow : follows j j' ≡ true
  pub track : tracked j l ≡ true → tracked j' l' ≡ true

abbrev pub MovesAt : Text → Db → Db → Type 0
MovesAt i db db' = Moves (job_of db i) (lease_of db i) (job_of db' i) (lease_of db' i)

pub Moves-refl : (j : Option ProvisioningJob) (l : Option Lease) → Moves j l j l
unfolding follows
Moves-refl none l = record { follow = refl; track = λ t. t }
Moves-refl (some j) l = record { follow = ground arith; track = λ t. t }

module _ (i : Text) where
  pub place_job-Moves :
      (j : ProvisioningJob) (node : Text) (p : Template) (db db' : Db)
      → j.state ≡ placed
      → place_job j node p db ≡ some db'
      → MovesAt i db db'
  unfolding follows tracked
  place_job-Moves j node p db db' s h =
      ground (
        arith,
        job-place_job i j node p db db' h,
        lease-place_job i j node p db db' h,
        ==_iff j.id i,
      )

  pub add_trial-Moves :
      (p : TrialPlan) (tenant_id job_id : Text) (hostname : Option Text) (now : ℕ) (db db' : Db)
      → add_trial p tenant_id job_id hostname now db ≡ some db'
      → MovesAt i db db'
  unfolding follows tracked
  add_trial-Moves p tenant_id job_id hostname now db db' h = ground (
    arith,
    job-add_trial i p tenant_id job_id hostname now db db' h,
    lease-add_trial i p tenant_id job_id hostname now db db' h,
    ==_iff job_id i,
  )

  pub approve-Moves :
      (a : Approval) (target_id job_id : Text) (now : ℕ) (db db' : Db)
      → approve a target_id job_id now db ≡ some db'
      → MovesAt i db db'
  unfolding follows tracked
  approve-Moves a target_id job_id now db db' h = ground (
    arith,
    job-approve i a target_id job_id now db db' h,
    lease-approve i a target_id job_id now db db' h,
    ==_iff job_id i,
  )

  pub place_target-Moves :
      (p : ProductionPlacement) (now : ℕ) (db : Db) → MovesAt i db (place_target p now db)
  unfolding follows tracked is_placeable
  place_target-Moves p now db =
      ground (arith, job-place_target i p now db, lease-place_target i p now db)

  pub requeue-Moves :
      (j : ProvisioningJob) (node : Text) (now : ℕ) (db : Db)
      → job_of db j.id ≡ some j
      → j.state ≡ failed
      → MovesAt i db (requeue j node now db)
  unfolding follows tracked
  requeue-Moves j node now db found s =
      ground (arith, job-requeue i j node now db, lease-requeue i j node now db, ==_iff j.id i)

  -- The lease and the dispatch of a claim together.
  pub dispatch_job-Moves :
      (j : ProvisioningJob) (node : Text) (now : ℕ) (db db' : Db)
      → job_of db j.id ≡ some j
      → can_transition j.state dispatched ≡ true
      → dispatch_job j node now db ≡ some db'
      → is_on j.node_id node ≡ true
      → (l : Lease) → lease_of db j.id ≡ some l
      → MovesAt i db db'
  unfolding follows tracked
  dispatch_job-Moves j node now db db' found s h on l held = ground (
    arith,
    job-dispatch_job i j node now db db' h,
    lease-dispatch_job i j node now db db' h,
    ==_iff j.id i,
  )

  pub renew_lease-Moves :
      (k : Text) (until now : ℕ) (db : Db) → MovesAt i db (renew_lease k until now db)
  unfolding follows tracked renew_lease
  renew_lease-Moves k until now db = ground (arith, lease-renew_lease i k until now db)

  pub start_job-Moves :
      (j : ProvisioningJob) (k : Text) (until now : ℕ) (db : Db)
      → job_of db k ≡ some j
      → can_transition j.state running ≡ true
      → (l : Lease) → lease_of db k ≡ some l
      → MovesAt i db (start_job j k until now db)
  unfolding follows tracked
  start_job-Moves j k until now db found s l held =
      ground
        (arith, job-start_job i j k until now db, lease-start_job i j k until now db, ==_iff k i)

  pub finish_job-Moves :
      (input : OperationResultInput) (j : ProvisioningJob) (node k : Text) (now : ℕ)
      (ts : List Tenant) (db : Db)
      → job_of db k ≡ some j
      → can_transition j.state (state_of input.state) ≡ true
      → is_running (state_of input.state) ≡ false
      → MovesAt i db (finish_job input j node k now ts db)
  unfolding follows tracked
  finish_job-Moves input j node k now ts db found s ends = ground (
    arith,
    job-finish_job i input j node k now ts db,
    lease-finish_job i input j node k now ts db,
    ==_iff k i,
  )
