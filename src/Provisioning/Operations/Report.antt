-- ===== src/Provisioning/Operations/Report.antt =====
-- `reportOperationResult` of deploy/cloudflare/src/nodeOperations.ts.
use dsx_control_plane.Base.{
  ℕ, Bool, true, false, not, ◌&&◌, String, Option, none, some, List, [], ◌∷◌, ◌++◌, ltb,
  if◌then◌else◌, Result, ok, ◌>>=◌, ◌>>◌, ensure, or_else, map_err,
}
use dsx_control_plane.Text.{Text, ◌==◌}
use dsx_control_plane.Time.{lease_end, trial_expiry_from}
use dsx_control_plane.Table.{always, row, update, delete}
use dsx_control_plane.Db.{Db, template_of, tenant_of, job_of, lease_of}
use dsx_control_plane.Db.States.{ProvisioningState, trial, same_kind, TenantStatus, TrialState}
use dsx_control_plane.Db.Rows.{Template, Tenant, ProvisioningJob, Lease, Payload, word}
use dsx_control_plane.Http.{Env, Request, read_json, authenticate_node}
use dsx_control_plane.Http.Response.{Response, error_with, accepted, fail, Handled, settle, commit}
use dsx_control_plane.Provisioning.Machine.{can_transition, state_word}
use dsx_control_plane.Provisioning.DatabaseName.{expected_database_name}
use dsx_control_plane.Provisioning.Results.{
  Reported, running, ready, failed, state_of, OperationResultInput, parse_operation_result,
}
use dsx_control_plane.Provisioning.Tenants.{job_event}
use dsx_control_plane.Provisioning.Retry.{code_value}
use dsx_control_plane.Provisioning.Operations.{is_on, fail_tenant, node_audit}
use dsx_control_plane.Provisioning.Operations.Claim.{Source}

abbrev pub is_held : Text → Text → ℕ → Option Lease → Bool
is_held node_id hash now none = false
is_held node_id hash now (some l) =
    l.node_id == node_id && l.lease_token_hash == hash && ltb now l.lease_expires_at

-- The `SELECT` of the lease, as a test.
unfoldable pub holds_lease : Db → Text → Text → Text → ℕ → Bool
unfolding row ◌==◌
holds_lease db job_id node_id hash now = is_held node_id hash now (lease_of db job_id)

abbrev joined : ProvisioningJob → Option Tenant → Option Template → Option Source
joined j (some t) (some p) = some (record { job = j; tenant = t; template = p })
joined j _ _ = none

abbrev current_from : Db → Text → Option ProvisioningJob → Option Source
current_from db node_id none = none
current_from db node_id (some j) =
    if is_on j.node_id node_id
    then joined j (tenant_of db j.tenant_id) (template_of db j.template_id)
    else none

-- The join that reads the reported job; the template need not be active.
unfoldable pub current_job : Db → Text → Text → Option Source
unfolding row ◌==◌
current_job db job_id node_id = current_from db node_id (job_of db job_id)

abbrev pub renewed_lease : ℕ → ℕ → Lease → Lease
renewed_lease until now l = record l { lease_expires_at = until; updated_at = now }

abbrev renewed : Text → ℕ → ℕ → Db → List Lease
renewed job_id until now db =
    update (λ l. l.job_id) job_id always (renewed_lease until now) db.provisioning_operation_leases

-- The statement of a heartbeat on a running job.
unfoldable pub renew_lease : Text → ℕ → ℕ → Db → Db
unfolding update
renew_lease job_id until now db = record db {
  provisioning_operation_leases = renewed job_id until now db;
}

-- COALESCE(column, value)
abbrev pub coalesce : Option ℕ → ℕ → Option ℕ
coalesce none v = some v
coalesce (some a) v = some a

abbrev pub running_job : ℕ → ProvisioningJob → ProvisioningJob
running_job now x = record x {
  state = ProvisioningState.running;
  started_at = coalesce x.started_at now;
  updated_at = now;
}

-- The batch of a first `running`.
unfoldable pub start_job : ProvisioningJob → Text → ℕ → ℕ → Db → Db
unfolding update
start_job j job_id until now db = record db {
  provisioning_jobs = update (λ x. x.id) job_id always (running_job now) db.provisioning_jobs;
  provisioning_operation_leases = renewed job_id until now db;
  provisioning_job_events =
      db.provisioning_job_events
      ++ job_event job_id "provisioning.running" (some (state_word j.state)) "running" [] now ∷ [];
}

-- The `UPDATE` of the tenant after `ready`.
unfoldable pub ready_tenant : Option Text → ℕ → Tenant → Tenant
unfolding same_kind trial_expiry_from
ready_tenant name now t =
    let is_trial = same_kind t.environment_kind trial in
    record t {
      status = TenantStatus.ready;
      database_name = name;
      trial_state = if is_trial then some TrialState.active else t.trial_state;
      trial_started_at = if is_trial then coalesce t.trial_started_at now else t.trial_started_at;
      trial_expires_at = if is_trial then some (trial_expiry_from now) else t.trial_expires_at;
      updated_at = now;
    }

abbrev has_name : Option Text → Text → Bool
has_name none s = false
has_name (some a) s = a == s

-- Another tenant has the name, against UNIQUE (database_name).
unfoldable pub name_taken : Text → Option Text → List Tenant → Bool
unfolding ◌==◌
name_taken tenant_id none ts = false
name_taken tenant_id (some s) [] = false
name_taken tenant_id (some s) (t ∷ ts) =
    if not (t.id == tenant_id) && has_name t.database_name s
    then true
    else name_taken tenant_id (some s) ts

abbrev report_event : Reported → String
report_event running = "provisioning.running"
report_event ready = "provisioning.ready"
report_event failed = "provisioning.failed"

abbrev report_audit : Reported → String
report_audit running = "provisioning.operation.running"
report_audit ready = "provisioning.operation.ready"
report_audit failed = "provisioning.operation.failed"

-- `eventPayload`
abbrev report_payload : OperationResultInput → Payload
report_payload input = elim input.state [
  | ready ↦ ("database_name", code_value input.database_name) ∷ []
  | _ ↦ ("error_code", code_value input.error_code) ∷ []
]

abbrev pub finished_job : OperationResultInput → ℕ → ProvisioningJob → ProvisioningJob
finished_job input now x = record x {
  state = state_of input.state;
  error_code = input.error_code;
  updated_at = now;
  finished_at = some now;
}

-- The statements that `ready` and `failed` share, and the tenants that the last one leaves.
unfoldable pub finish_job :
    OperationResultInput → ProvisioningJob → Text → Text → ℕ → List Tenant → Db → Db
unfolding update delete
finish_job input j node_id job_id now tenants db = record db {
  provisioning_jobs =
      update (λ x. x.id) job_id always (finished_job input now) db.provisioning_jobs;
  provisioning_operation_leases = delete (λ l. l.job_id) job_id db.provisioning_operation_leases;
  provisioning_job_events =
      db.provisioning_job_events
      ++ job_event job_id (report_event input.state) (some (state_word j.state))
          (state_word (state_of input.state)) (report_payload input) now
        ∷ [];
  audit_events =
      db.audit_events
      ++ node_audit (report_audit input.state) "provisioning_job" node_id job_id
          (report_payload input) now
        ∷ [];
  tenants = tenants;
}

-- UPDATE tenants ... WHERE id = ?
abbrev pub set_tenant : Text → (Tenant → Tenant) → Db → List Tenant
set_tenant id f db = update (λ t. t.id) id always f db.tenants

-- The batch of the last part of the route. The first argument is the reported state.
unfoldable pub write_result :
    Reported → OperationResultInput → ProvisioningJob → Text → Text → ℕ → ℕ → Db → Option Db
unfolding start_job finish_job name_taken ready_tenant fail_tenant
write_result running input j node_id job_id until now db = some (start_job j job_id until now db)
write_result ready input j node_id job_id until now db =
    if name_taken j.tenant_id input.database_name db.tenants
    then none
    else some (
        finish_job input j node_id job_id now
          (set_tenant j.tenant_id (ready_tenant input.database_name now) db) db)
write_result failed input j node_id job_id until now db =
    some (finish_job input j node_id job_id now (set_tenant j.tenant_id (fail_tenant now) db) db)

abbrev until_of : Reported → ℕ → Option ℕ
until_of running until = some until
until_of _ until = none

abbrev acceptance : Reported → ℕ → Response
acceptance r until = record {
  status = 200;
  body = accepted (state_word (state_of r)) (until_of r until);
}

abbrev pub is_running : ProvisioningState → Bool
is_running ProvisioningState.running = true
is_running _ = false

abbrev pub agrees : Reported → Option Text → Text → Bool
agrees ready name expected = has_name name expected
agrees _ name expected = true

unfoldable pub apply_report : Env → OperationResultInput → Source → Text → Text → ℕ → Db → Handled
unfolding renew_lease write_result can_transition expected_database_name ◌==◌ lease_end
apply_report env input c node_id job_id now db =
    let until = lease_end env.node_operation_lease_seconds now in
    let expected = expected_database_name c.template.database_prefix c.tenant.slug c.tenant.id in
    if is_running (state_of input.state) && is_running c.job.state
    then commit (some (renew_lease job_id until now db)) (λ _. acceptance running until)
    else do
      ensure (can_transition c.job.state (state_of input.state)) (record {
        status = 409;
        body = error_with "invalid_operation_transition" (
            ("from_state", word (state_word c.job.state))
            ∷ ("to_state", word (state_word (state_of input.state)))
            ∷ []);
      })
      ensure (agrees input.state input.database_name expected) (fail 409 "database_name_mismatch")
      commit (write_result input.state input c.job node_id job_id until now db)
          (λ _. acceptance input.state until)

-- The reads and the early returns up to the job that the report is about.
unfoldable pub check_report :
    Env → Request → Text → Text → ℕ → Db → Result Response (OperationResultInput × Source)
unfolding holds_lease current_job
check_report env request node_id job_id now db = do
  ensure (authenticate_node env request node_id db) (fail 401 "invalid_or_revoked_agent")
  body ← or_else (read_json request) (fail 400 "invalid_json")
  input ← map_err (fail 400) (parse_operation_result body)
  ensure (holds_lease db job_id node_id (env.sha256 input.lease_token) now)
      (fail 409 "operation_lease_expired_or_invalid")
  current ← or_else (current_job db job_id node_id) (fail 404 "provisioning_job_not_found")
  ok (input, current)

unfoldable pub report_operation_result : Env → Request → Text → Text → ℕ → Db → Response × Db
report_operation_result env request node_id job_id now db = settle db do
  (input, current) ← check_report env request node_id job_id now db
  apply_report env input current node_id job_id now db
