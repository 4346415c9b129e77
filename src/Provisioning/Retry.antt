-- ===== src/Provisioning/Retry.antt =====
-- deploy/cloudflare/src/provisioningRetry.ts
use dsx_control_plane.Base.{
  ℕ, true, false, Option, none, some, [], ◌∷◌, ◌++◌, ◌>>=◌, ◌>>◌, ensure, or_else, Result, ok, err,
}
use dsx_control_plane.Text.{Text}
use dsx_control_plane.Table.{always, update, delete}
use dsx_control_plane.Db.{Db, node_of, job_of}
use dsx_control_plane.Db.States.{provisioning, failed, retrying, same_state}
use dsx_control_plane.Db.Rows.{ProvisioningJob, Value, null, word, text as txt}
use dsx_control_plane.Http.{Env, Request, is_admin, is_live}
use dsx_control_plane.Http.Response.{Response, error_with, job, fail, settle, commit}
use dsx_control_plane.Provisioning.Machine.{
  RetryMode, transition, replay, reject, retry_mode, state_word,
}
use dsx_control_plane.Provisioning.Tenants.{admin_audit, job_event}

-- The two early ends that `retryMode` decides.
abbrev check_mode : RetryMode → ProvisioningJob → Result Response (Unit {0})
check_mode transition j = ok tt
check_mode replay j = err (record { status = 200; body = job (some j) true })
check_mode reject j = err (record {
  status = 409;
  body = error_with "provisioning_job_not_retryable" (("state", word (state_word j.state)) ∷ []);
})

abbrev pub code_value : Option Text → Value
code_value none = null
code_value (some c) = txt c

-- The columns that the `UPDATE` of the job sets.
abbrev pub retrying_job : ℕ → ProvisioningJob → ProvisioningJob
retrying_job now x = record x {
  state = retrying;
  error_code = none;
  updated_at = now;
  started_at = none;
  finished_at = none;
}

-- The batch of the route. No statement of it can break a constraint.
unfoldable pub requeue : ProvisioningJob → Text → ℕ → Db → Db
unfolding update delete same_state
requeue j node_id now db = record db {
  provisioning_operation_leases = delete (λ l. l.job_id) j.id db.provisioning_operation_leases;
  provisioning_jobs =
      update (λ x. x.id) j.id (λ x. same_state x.state failed) (retrying_job now)
        db.provisioning_jobs;
  tenants =
      update (λ t. t.id) j.tenant_id always
        (λ t. record t { status = provisioning; assigned_node_id = some node_id; updated_at = now })
        db.tenants;
  provisioning_job_events =
      db.provisioning_job_events
      ++ job_event j.id "provisioning.retrying" (some "failed") "retrying"
          (("reason", word "admin_retry") ∷ []) now
        ∷ [];
  audit_events =
      db.audit_events
      ++ admin_audit "provisioning.job.retry_requested" "provisioning_job" j.id
          (("node_id", txt node_id) ∷ ("previous_error_code", code_value j.error_code) ∷ []) now
        ∷ [];
}

-- The reads and the early returns of the route: the job, and its node.
unfoldable pub check_retry : Env → Request → Text → Db → Result Response (ProvisioningJob × Text)
unfolding retry_mode
check_retry env request job_id db = do
  ensure (is_admin env request) (fail 401 "unauthorized")
  j ← or_else (job_of db job_id) (fail 404 "provisioning_job_not_found")
  check_mode (retry_mode j.state) j
  node_id ← or_else j.node_id (fail 409 "provisioning_retry_node_missing")
  ensure (is_live (node_of db node_id)) (fail 409 "provisioning_retry_node_unavailable")
  ok (j, node_id)

unfoldable pub retry_provisioning_job : Env → Request → Text → ℕ → Db → Response × Db
retry_provisioning_job env request job_id now db = settle db do
  (j, node_id) ← check_retry env request job_id db
  commit (some (requeue j node_id now db))
      (λ after. record { status = 200; body = job (job_of after j.id) false })
