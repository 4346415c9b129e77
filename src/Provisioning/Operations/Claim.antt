-- ===== src/Provisioning/Operations/Claim.antt =====
-- `claimNextOperation` of deploy/cloudflare/src/nodeOperations.ts. The lease is inserted by a
-- statement of its own, before the batch that dispatches the job.
use dsx_control_plane.Base.{ℕ, Option, none, some, if◌then◌else◌}
use dsx_control_plane.Text.{Text, ◌==◌}
use dsx_control_plane.Time.{lease_end}
use dsx_control_plane.Table.{row, delete}
use dsx_control_plane.Db.{Db, tenant_of, job_of}
use dsx_control_plane.Db.States.{dispatched}
use dsx_control_plane.Db.Rows.{Template, Tenant, ProvisioningJob, Lease}
use dsx_control_plane.Http.{Env, Request, authenticate_node}
use dsx_control_plane.Http.Response.{Response, operation, fail, uncaught}
use dsx_control_plane.Provisioning.Machine.{can_transition}
use dsx_control_plane.Provisioning.DatabaseName.{provision_payload}
use dsx_control_plane.Provisioning.Jobs.{active_template}
use dsx_control_plane.Provisioning.Operations.{
  mark_expired_leases, is_on, next_job, insert_lease, dispatch_job,
}

pub record Source : Type 0 where
  pub job : ProvisioningJob
  pub tenant : Tenant
  pub template : Template

abbrev joined : ProvisioningJob → Option Tenant → Option Template → Option Source
joined j (some t) (some p) = some (record { job = j; tenant = t; template = p })
joined j _ _ = none

abbrev source_from : Db → Text → Option ProvisioningJob → Option Source
source_from db node_id none = none
source_from db node_id (some j) =
    if is_on j.node_id node_id
    then joined j (tenant_of db j.tenant_id) (active_template db j.template_id)
    else none

-- The join that reads the claimed job back.
unfoldable pub operation_source : Db → Text → Text → Option Source
unfolding row ◌==◌
operation_source db job_id node_id = source_from db node_id (job_of db job_id)

abbrev pub release : Text → Db → Db
release job_id db = record db {
  provisioning_operation_leases = delete (λ l. l.job_id) job_id db.provisioning_operation_leases;
}

abbrev pub conflict : Text → Db → Response × Db
conflict job_id db = (fail 409 "operation_claim_conflict", release job_id db)

-- The batch, and the response; `db` holds the new lease already.
unfoldable pub dispatch_source : Env → Source → Text → Text → ℕ → Db → Response × Db
unfolding dispatch_job lease_end
dispatch_source env s node_id lease_token now db = elim (dispatch_job s.job node_id now db) [
  | none ↦ (uncaught, db)
  | some after ↦ (
    record {
      status = 200;
      body = operation (
          some (record {
            id = s.job.id;
            type = "provision_odoo_environment";
            lease_token = lease_token;
            lease_expires_at = lease_end env.node_operation_lease_seconds now;
            payload = provision_payload env.json_parse s.tenant s.template;
          }));
    },
    after,
  )
]

unfoldable pub after_lease : Env → Text → Text → Text → ℕ → Db → Response × Db
unfolding operation_source can_transition dispatch_source delete
after_lease env job_id node_id lease_token now db = elim (operation_source db job_id node_id) [
  | none ↦ conflict job_id db
  | some s ↦
      if can_transition s.job.state dispatched
      then dispatch_source env s node_id lease_token now db
      else conflict job_id db
]

abbrev no_operation : Db → Response × Db
no_operation db = (record { status = 200; body = operation none }, db)

abbrev pub new_lease : Env → Text → Text → Text → ℕ → Lease
new_lease env job_id node_id lease_token now = record {
  job_id = job_id;
  node_id = node_id;
  lease_token_hash = env.sha256 lease_token;
  lease_expires_at = lease_end env.node_operation_lease_seconds now;
  created_at = now;
  updated_at = now;
}

unfoldable pub claim_job : Env → Option ProvisioningJob → Text → Text → ℕ → Db → Response × Db
unfolding insert_lease after_lease
claim_job env none node_id lease_token now db = no_operation db
claim_job env (some j) node_id lease_token now db =
    elim (insert_lease (new_lease env j.id node_id lease_token now)
      db.provisioning_operation_leases) [
        | none ↦ no_operation db
        | some ls ↦
            after_lease env j.id node_id lease_token now
              (record db { provisioning_operation_leases = ls })
      ]

unfoldable pub claim_next_operation : Env → Request → Text → Text → ℕ → Db → Response × Db
unfolding authenticate_node mark_expired_leases next_job claim_job
claim_next_operation env request node_id lease_token now db =
    let swept = mark_expired_leases node_id now db in
    if authenticate_node env request node_id db
    then claim_job env (next_job node_id swept) node_id lease_token now swept
    else (fail 401 "invalid_or_revoked_agent", db)
