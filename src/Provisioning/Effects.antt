-- ===== src/Provisioning/Effects.antt =====
-- What the batches of the provisioning routes leave in the rows of one job: its own row, and the
-- row of its lease.
use mathlib.Core.Option
use dsx_control_plane.Base.{ℕ, ◌≡◌, refl, Bool, Option, none, some, List, arith, if◌then◌else◌}
use dsx_control_plane.Text.{Text, ◌==◌}
use dsx_control_plane.Table.{always, row, or_row, when, row-append, row-update, row-delete}
use dsx_control_plane.Db.{Db, job_of, lease_of}
use dsx_control_plane.Db.States.{failed, same_state}
use dsx_control_plane.Db.Rows.{Template, Tenant, ProvisioningJob, Lease}
use dsx_control_plane.Provisioning.Jobs.{place_job}
use dsx_control_plane.Trials.Requests.{TrialPlan, planned_job, add_trial}
use dsx_control_plane.Provisioning.Retry.{requeue, retrying_job}
use dsx_control_plane.Provisioning.Results.{OperationResultInput}
use dsx_control_plane.Provisioning.Operations.{
  expire_job, expired_job, is_in_flight, dispatch_job, dispatched_job, still_claimed, insert_lease,
}
use dsx_control_plane.Provisioning.Operations.Report.{
  renew_lease, renewed_lease, start_job, running_job, finish_job, finished_job,
}

-- `UPDATE ... WHERE id = k AND cond` as seen at row `i`.
abbrev pub set_row {ℓ} :
    {Row : Type ℓ} → Text → Text → (Row → Bool) → (Row → Row) → Option Row → Option Row
set_row k i cond f o = if k == i then Option.map (when cond f) o else o

-- `DELETE ... WHERE id = k` as seen at row `i`.
abbrev pub cut_row {ℓ} : {Row : Type ℓ} → Text → Text → Option Row → Option Row
cut_row k i o = if k == i then none else o

module _ (i : Text) where
  pub lease-place_job :
      (j : ProvisioningJob) (node : Text) (p : Template) (db db' : Db)
      → place_job j node p db ≡ some db'
      → lease_of db' i ≡ lease_of db i
  unfolding place_job
  lease-place_job j node p db db' h = ground arith

  pub job-place_job :
      (j : ProvisioningJob) (node : Text) (p : Template) (db db' : Db)
      → place_job j node p db ≡ some db'
      → (job_of db j.id ≡ none)
        × (job_of db' i ≡ or_row (job_of db i) (if j.id == i then some j else none))
  unfolding place_job
  job-place_job j node p db db' h =
      (ground arith, ground (arith, row-append (λ x. x.id) i db.provisioning_jobs j))

  pub lease-add_trial :
      (p : TrialPlan) (tenant_id job_id : Text) (hostname : Option Text) (now : ℕ) (db db' : Db)
      → add_trial p tenant_id job_id hostname now db ≡ some db'
      → lease_of db' i ≡ lease_of db i
  unfolding add_trial
  lease-add_trial p tenant_id job_id hostname now db db' h = ground arith

  pub job-add_trial :
      (p : TrialPlan) (tenant_id job_id : Text) (hostname : Option Text) (now : ℕ) (db db' : Db)
      → add_trial p tenant_id job_id hostname now db ≡ some db'
      → (job_of db job_id ≡ none)
        × (job_of db' i
            ≡ or_row
                (job_of db i)
                (if job_id == i then some (planned_job p tenant_id job_id now) else none))
  unfolding add_trial
  job-add_trial p tenant_id job_id hostname now db db' h = (
    ground arith,
    ground
        (arith, row-append (λ x. x.id) i db.provisioning_jobs (planned_job p tenant_id job_id now)),
  )

  pub lease-requeue :
      (j : ProvisioningJob) (node : Text) (now : ℕ) (db : Db)
      → lease_of (requeue j node now db) i ≡ cut_row j.id i (lease_of db i)
  unfolding requeue
  lease-requeue j node now db = row-delete (λ l. l.job_id) i j.id db.provisioning_operation_leases

  pub job-requeue :
      (j : ProvisioningJob) (node : Text) (now : ℕ) (db : Db)
      → job_of (requeue j node now db) i
        ≡ set_row j.id i (λ x. same_state x.state failed) (retrying_job now) (job_of db i)
  unfolding requeue
  job-requeue j node now db =
      row-update (λ x. x.id) (λ x. same_state x.state failed) (retrying_job now) (λ x. refl) i j.id
        db.provisioning_jobs

  pub lease-expire_job :
      (j : ProvisioningJob) (k : Text) (now : ℕ) (db : Db)
      → lease_of (expire_job j k now db) i ≡ cut_row k i (lease_of db i)
  unfolding expire_job
  lease-expire_job j k now db = row-delete (λ l. l.job_id) i k db.provisioning_operation_leases

  pub job-expire_job :
      (j : ProvisioningJob) (k : Text) (now : ℕ) (db : Db)
      → job_of (expire_job j k now db) i
        ≡ set_row k i (λ x. is_in_flight x.state) (expired_job now) (job_of db i)
  unfolding expire_job
  job-expire_job j k now db =
      row-update (λ x. x.id) (λ x. is_in_flight x.state) (expired_job now) (λ x. refl) i k
        db.provisioning_jobs

  pub lease-dispatch_job :
      (j : ProvisioningJob) (node : Text) (now : ℕ) (db db' : Db)
      → dispatch_job j node now db ≡ some db'
      → lease_of db' i ≡ lease_of db i
  unfolding dispatch_job
  lease-dispatch_job j node now db db' h = ground arith

  pub job-dispatch_job :
      (j : ProvisioningJob) (node : Text) (now : ℕ) (db db' : Db)
      → dispatch_job j node now db ≡ some db'
      → job_of db' i ≡ set_row j.id i (still_claimed j node) (dispatched_job now) (job_of db i)
  unfolding dispatch_job
  job-dispatch_job j node now db db' h = ground (
    arith,
    row-update (λ x. x.id) (still_claimed j node) (dispatched_job now) (λ x. refl) i j.id
        db.provisioning_jobs,
  )

  pub row-insert_lease :
      (l : Lease) (ls ls' : List Lease)
      → insert_lease l ls ≡ some ls'
      → (row (λ x. x.job_id) l.job_id ls ≡ none)
        × (row (λ x. x.job_id) i ls'
            ≡ or_row (row (λ x. x.job_id) i ls) (if l.job_id == i then some l else none))
  unfolding insert_lease
  row-insert_lease l ls ls' h = (ground arith, ground (arith, row-append (λ x. x.job_id) i ls l))

  pub lease-renew_lease :
      (k : Text) (until now : ℕ) (db : Db)
      → lease_of (renew_lease k until now db) i
        ≡ set_row k i always (renewed_lease until now) (lease_of db i)
  unfolding renew_lease
  lease-renew_lease k until now db =
      row-update (λ l. l.job_id) always (renewed_lease until now) (λ l. refl) i k
        db.provisioning_operation_leases

  pub lease-start_job :
      (j : ProvisioningJob) (k : Text) (until now : ℕ) (db : Db)
      → lease_of (start_job j k until now db) i
        ≡ set_row k i always (renewed_lease until now) (lease_of db i)
  unfolding start_job
  lease-start_job j k until now db =
      row-update (λ l. l.job_id) always (renewed_lease until now) (λ l. refl) i k
        db.provisioning_operation_leases

  pub job-start_job :
      (j : ProvisioningJob) (k : Text) (until now : ℕ) (db : Db)
      → job_of (start_job j k until now db) i ≡ set_row k i always (running_job now) (job_of db i)
  unfolding start_job
  job-start_job j k until now db =
      row-update (λ x. x.id) always (running_job now) (λ x. refl) i k db.provisioning_jobs

  pub lease-finish_job :
      (input : OperationResultInput) (j : ProvisioningJob) (node k : Text) (now : ℕ)
      (ts : List Tenant) (db : Db)
      → lease_of (finish_job input j node k now ts db) i ≡ cut_row k i (lease_of db i)
  unfolding finish_job
  lease-finish_job input j node k now ts db =
      row-delete (λ l. l.job_id) i k db.provisioning_operation_leases

  pub job-finish_job :
      (input : OperationResultInput) (j : ProvisioningJob) (node k : Text) (now : ℕ)
      (ts : List Tenant) (db : Db)
      → job_of (finish_job input j node k now ts db) i
        ≡ set_row k i always (finished_job input now) (job_of db i)
  unfolding finish_job
  job-finish_job input j node k now ts db =
      row-update (λ x. x.id) always (finished_job input now) (λ x. refl) i k db.provisioning_jobs
