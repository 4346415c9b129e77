-- ===== src/Provisioning/Reports/Ready.antt =====
-- What an accepted `ready` leaves, by `reportOperationResult` of
-- deploy/cloudflare/src/nodeOperations.ts.
use mathlib.Core.Path.{subst}
use dsx_control_plane.Base.{ℕ, ◌+◌, ◌≡◌, ap, refl, true, Option, none, some, arith, ok}
use dsx_control_plane.Text.{Text, ==_iff, ==_refl}
use dsx_control_plane.Time.{lease_end, trial_expiry_from}
use dsx_control_plane.Table.{always, row-update}
use dsx_control_plane.Db.{Db, tenant_of, job_of, lease_of}
use dsx_control_plane.Db.States.{
  ProvisioningState, TenantStatus, EnvironmentKind, TrialState, same_kind,
}
use dsx_control_plane.Db.Rows.{Tenant, ProvisioningJob}
use dsx_control_plane.Http.{Env, Request}
use dsx_control_plane.Http.Response.{settle}
use dsx_control_plane.Provisioning.Results.{OperationResultInput, ready, state_of}
use dsx_control_plane.Provisioning.DatabaseName.{expected_database_name}
use dsx_control_plane.Provisioning.Operations.Claim.{Source}
use dsx_control_plane.Provisioning.Machine.{can_transition}
use dsx_control_plane.Provisioning.Effects.{job-finish_job}
use dsx_control_plane.Provisioning.Operations.Report.{
  check_report, apply_report, report_operation_result, write_result, set_tenant, agrees,
  ready_tenant, finish_job, finished_job,
}
use dsx_control_plane.Provisioning.Reports.{write_result-releases, apply_report-written}

check_report-current :
    (env : Env) (r : Request) (node k : Text) (now : ℕ) (db : Db) (input : OperationResultInput)
    (c : Source)
    → check_report env r node k now db ≡ ok (input, c)
    → (job_of db k ≡ some c.job) × (tenant_of db c.job.tenant_id ≡ some c.tenant)
unfolding check_report
check_report-current env r node k now db input c h = (ground arith, ground arith)

-- What an accepted `ready` leaves: `c` is the job as it was found, with its tenant and template.
pub record IsReady (input : OperationResultInput) (c : Source) (k : Text) (now : ℕ) (after : Db)
    : Type 0 where
  pub was_running : c.job.state ≡ ProvisioningState.running
  pub named :
      input.database_name
      ≡ some (expected_database_name c.template.database_prefix c.tenant.slug c.tenant.id)
  pub job : ProvisioningJob
  pub job_found : job_of after k ≡ some job
  pub job_ready : job.state ≡ ProvisioningState.ready
  pub job_ended : job.finished_at ≡ some now
  pub lease : lease_of after k ≡ none
  pub owner : Tenant
  pub owner_found : tenant_of after c.job.tenant_id ≡ some owner
  pub owner_ready : owner.status ≡ TenantStatus.ready
  pub owner_database : owner.database_name ≡ input.database_name
  pub as_trial :
      c.tenant.environment_kind ≡ EnvironmentKind.trial
      → (owner.trial_state ≡ some TrialState.active)
        × (owner.trial_expires_at ≡ some (now + 259200000))

module _ (name : Option Text) (now : ℕ) (t : Tenant) where
  ready_tenant-status : (ready_tenant name now t).status ≡ TenantStatus.ready
  unfolding ready_tenant
  ready_tenant-status = refl

  ready_tenant-database : (ready_tenant name now t).database_name ≡ name
  unfolding ready_tenant
  ready_tenant-database = refl

  ready_tenant-trial :
      t.environment_kind ≡ EnvironmentKind.trial
      → ((ready_tenant name now t).trial_state ≡ some TrialState.active)
        × ((ready_tenant name now t).trial_expires_at ≡ some (now + 259200000))
  unfolding ready_tenant same_kind trial_expiry_from
  ready_tenant-trial h = (ground arith, ground arith)

module _ (input : OperationResultInput) (c : Source) (node k : Text) (until now : ℕ) (db db' : Db)
    (found : job_of db k ≡ some c.job) (owner : tenant_of db c.job.tenant_id ≡ some c.tenant)
    (written : write_result ready input c.job node k until now db ≡ some db') where
  ready_job : job_of db' k ≡ some (finished_job input now c.job)
  unfolding write_result
  ready_job = ground (
    arith,
    job-finish_job k input c.job node k now
        (set_tenant c.job.tenant_id (ready_tenant input.database_name now) db) db,
    ==_refl k,
  )

  ready_owner : tenant_of db' c.job.tenant_id ≡ some (ready_tenant input.database_name now c.tenant)
  unfolding write_result finish_job
  ready_owner = ground (
    arith,
    row-update (λ t. t.id) always (ready_tenant input.database_name now) (λ t. refl) c.job.tenant_id
        c.job.tenant_id db.tenants,
    ==_refl c.job.tenant_id,
  )

can_transition_ready :
    (s : ProvisioningState)
    → can_transition s ProvisioningState.ready ≡ true
    → s ≡ ProvisioningState.running
unfolding can_transition
can_transition_ready s h = ground arith

agrees_ready :
    (name : Option Text) (expected : Text)
    → agrees ready name expected ≡ true
    → name ≡ some expected
agrees_ready none expected h = cc
agrees_ready (some s) expected h = ap some ((==_iff s expected).0 h)

apply_report-IsReady :
    (env : Env) (input : OperationResultInput) (c : Source) (node k : Text) (now : ℕ) (db : Db)
    → job_of db k ≡ some c.job
    → tenant_of db c.job.tenant_id ≡ some c.tenant
    → input.state ≡ ready
    → (settle db (apply_report env input c node k now db)).0.status ≡ 200
    → IsReady input c k now (settle db (apply_report env input c node k now db)).1
apply_report-IsReady env input c node k now db found owner e accepts =
    let until = lease_end env.node_operation_lease_seconds now in
    let expected = expected_database_name c.template.database_prefix c.tenant.slug c.tenant.id in
    let after = (settle db (apply_report env input c node k now db)).1 in
    let (free, named, batch) =
      apply_report-written env input c node k now db (λ r. ground arith) accepts in
    let written : write_result ready input c.job node k until now db ≡ some after =
      subst (λ s. write_result s input c.job node k until now db ≡ some after) e batch in
    record {
      was_running =
          can_transition_ready c.job.state
            (subst (λ s. can_transition c.job.state (state_of s) ≡ true) e free);
      named =
          agrees_ready input.database_name expected
            (subst (λ s. agrees s input.database_name expected ≡ true) e named);
      job = finished_job input now c.job;
      job_found = ready_job input c node k until now db after found owner written;
      job_ready = rw e refl;
      job_ended = refl;
      lease =
          write_result-releases ready input c.job node k until now db after (λ r. ground arith)
            written;
      owner = ready_tenant input.database_name now c.tenant;
      owner_found = ready_owner input c node k until now db after found owner written;
      owner_ready = ready_tenant-status input.database_name now c.tenant;
      owner_database = ready_tenant-database input.database_name now c.tenant;
      as_trial = ready_tenant-trial input.database_name now c.tenant;
    }

-- An accepted `ready` finds a running job and reports the expected database name. It leaves the job
-- ready and ended now, with no lease, and the job's tenant ready on that database; a trial is active
-- and expires in three days.
pub report_operation_result-IsReady :
    (env : Env) (r : Request) (node k : Text) (now : ℕ) (db : Db) (input : OperationResultInput)
    (c : Source)
    → check_report env r node k now db ≡ ok (input, c)
    → input.state ≡ ready
    → (report_operation_result env r node k now db).0.status ≡ 200
    → IsReady input c k now (report_operation_result env r node k now db).1
report_operation_result-IsReady env r node k now db input c checked e accepts =
    let (found, owner) = check_report-current env r node k now db input c checked in
    unfold report_operation_result in
    rw checked (
      apply_report-IsReady env input c node k now db found owner e
        (rw (report_operation_result, checked) at accepts))
