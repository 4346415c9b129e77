-- ===== src/Cleanup/Report.antt =====
-- `parseCleanupOperationResult` and `reportCleanupResult` of
-- deploy/cloudflare/src/cleanupOperations.ts.
use dsx_control_plane.Base.{
  ℕ, Bool, true, false, String, Option, none, some, List, [], ◌∷◌, ◌++◌, leb, if◌then◌else◌, Result,
  ok, ◌>>=◌, ◌>>◌, ensure, or_else, map_err,
}
use dsx_control_plane.Base.Lists.{length}
use dsx_control_plane.Text.{Text, ◌==◌, text, is_empty, trim, to_lower_case}
use dsx_control_plane.Text.Patterns.{safe_code}
use dsx_control_plane.Time.{lease_end}
use dsx_control_plane.Json.{Fields, get, string_value}
use dsx_control_plane.Table.{always, row, update, delete}
use dsx_control_plane.Db.{Db, cleanup_of, cleanup_lease_of}
use dsx_control_plane.Db.States.{CleanupState, TenantStatus}
use dsx_control_plane.Db.Rows.{Tenant, CleanupJob, Lease, Payload, word}
use dsx_control_plane.Http.{Env, Request, read_json, authenticate_node}
use dsx_control_plane.Http.Response.{Response, error_with, accepted, fail, Handled, settle, commit}
use dsx_control_plane.Provisioning.Results.{lowered, is_null_or, code_or, state_field}
use dsx_control_plane.Provisioning.Tenants.{job_event}
use dsx_control_plane.Provisioning.Retry.{code_value}
use dsx_control_plane.Provisioning.Operations.{node_audit}
use dsx_control_plane.Provisioning.Operations.Report.{is_held, renewed_lease, coalesce}
use dsx_control_plane.Cleanup.Jobs.{cleanup_word}
use dsx_control_plane.Cleanup.Operations.{failed_tenant}

-- The states that an agent may report.
pub data CleanupReported : Type 0 where
  running cleaned failed : CleanupReported

abbrev pub cleanup_state_of : CleanupReported → CleanupState
cleanup_state_of running = CleanupState.running
cleanup_state_of cleaned = CleanupState.cleaned
cleanup_state_of failed = CleanupState.failed

unfoldable pub parse_cleanup_reported : Text → Option CleanupReported
unfolding ◌==◌
parse_cleanup_reported s =
    if s == text "running"
    then some running
    else if s == text "cleaned"
    then some cleaned
    else if s == text "failed"
    then some failed
    else none

pub record CleanupOperationResultInput : Type 0 where
  pub lease_token : Text
  pub state : CleanupReported
  pub error_code : Option Text

abbrev reported_cleanup_error : CleanupReported → Option Text → Option Text
reported_cleanup_error failed code = some (code_or code (text "cleanup_failed"))
reported_cleanup_error _ code = none

unfoldable pub parse_cleanup_operation_result : Fields → Result String CleanupOperationResultInput
unfolding get string_value trim to_lower_case parse_cleanup_reported lowered safe_code is_empty
parse_cleanup_operation_result input = do
  let lease_token = string_value (get input (text "lease_token")) 256
  let error_code = lowered (get input (text "error_code")) 120
  ensure (leb 16 (length lease_token)) "invalid_lease_token"
  state ←
      or_else (parse_cleanup_reported (state_field (get input (text "state"))))
        "invalid_cleanup_operation_state"
  ensure (is_null_or safe_code error_code) "invalid_error_code"
  ok (record {
    lease_token = lease_token;
    state = state;
    error_code = reported_cleanup_error state error_code;
  })

-- The `SELECT` of the lease, as a test.
unfoldable pub holds_cleanup_lease : Db → Text → Text → Text → ℕ → Bool
unfolding row ◌==◌
holds_cleanup_lease db job_id node_id hash now =
    is_held node_id hash now (cleanup_lease_of db job_id)

abbrev pub on_node : Text → Option CleanupJob → Option CleanupJob
on_node node_id none = none
on_node node_id (some j) = if j.node_id == node_id then some j else none

unfoldable pub current_cleanup : Db → Text → Text → Option CleanupJob
unfolding row ◌==◌
current_cleanup db job_id node_id = on_node node_id (cleanup_of db job_id)

abbrev renewed : Text → ℕ → ℕ → Db → List Lease
renewed job_id until now db =
    update (λ l. l.job_id) job_id always (renewed_lease until now) db.cleanup_operation_leases

-- The statement of a heartbeat on a running job.
unfoldable pub renew_cleanup_lease : Text → ℕ → ℕ → Db → Db
unfolding update
renew_cleanup_lease job_id until now db = record db {
  cleanup_operation_leases = renewed job_id until now db;
}

abbrev pub running_cleanup : ℕ → CleanupJob → CleanupJob
running_cleanup now x = record x {
  state = CleanupState.running;
  started_at = coalesce x.started_at now;
  updated_at = now;
}

-- The batch of a first `running`.
unfoldable pub start_cleanup : Text → ℕ → ℕ → Db → Db
unfolding update
start_cleanup job_id until now db = record db {
  cleanup_jobs = update (λ x. x.id) job_id always (running_cleanup now) db.cleanup_jobs;
  cleanup_operation_leases = renewed job_id until now db;
  cleanup_job_events =
      db.cleanup_job_events
      ++ job_event job_id "cleanup.running" (some "dispatched") "running" [] now ∷ [];
}

abbrev pub cleanup_event : CleanupReported → String
cleanup_event running = "cleanup.running"
cleanup_event cleaned = "cleanup.cleaned"
cleanup_event failed = "cleanup.failed"

abbrev cleanup_audit : CleanupReported → String
cleanup_audit running = "cleanup.operation.running"
cleanup_audit cleaned = "cleanup.operation.cleaned"
cleanup_audit failed = "cleanup.operation.failed"

-- `terminalPayload`
abbrev pub cleanup_report_payload : CleanupOperationResultInput → Payload
cleanup_report_payload input = elim input.state [
  | cleaned ↦ []
  | _ ↦ ("error_code", code_value input.error_code) ∷ []
]

abbrev pub finished_cleanup : CleanupOperationResultInput → ℕ → CleanupJob → CleanupJob
finished_cleanup input now x = record x {
  state = cleanup_state_of input.state;
  error_code = input.error_code;
  updated_at = now;
  finished_at = some now;
}

abbrev pub decommissioned_tenant : ℕ → Tenant → Tenant
decommissioned_tenant now t = record t {
  status = TenantStatus.decommissioned;
  assigned_node_id = none;
  database_name = none;
  updated_at = now;
}

-- The `UPDATE` of the tenant that the last part adds.
abbrev pub finished_tenant : CleanupReported → ℕ → Tenant → Tenant
finished_tenant cleaned now t = decommissioned_tenant now t
finished_tenant _ now t = failed_tenant now t

-- The batch of the last part of the route, for `cleaned` and `failed`.
unfoldable pub finish_cleanup : CleanupOperationResultInput → CleanupJob → Text → Text → ℕ → Db → Db
unfolding update delete
finish_cleanup input j node_id job_id now db = record db {
  cleanup_jobs = update (λ x. x.id) job_id always (finished_cleanup input now) db.cleanup_jobs;
  cleanup_operation_leases = delete (λ l. l.job_id) job_id db.cleanup_operation_leases;
  cleanup_job_events =
      db.cleanup_job_events
      ++ job_event job_id (cleanup_event input.state) (some "running")
          (cleanup_word (cleanup_state_of input.state)) (cleanup_report_payload input) now
        ∷ [];
  audit_events =
      db.audit_events
      ++ node_audit (cleanup_audit input.state) "cleanup_job" node_id job_id
          (cleanup_report_payload input) now
        ∷ [];
  tenants = update (λ t. t.id) j.tenant_id always (finished_tenant input.state now) db.tenants;
}

abbrev pub is_running : CleanupState → Bool
is_running CleanupState.running = true
is_running _ = false

abbrev pub is_dispatched : CleanupState → Bool
is_dispatched CleanupState.dispatched = true
is_dispatched _ = false

abbrev pub invalid_transition : CleanupState → CleanupState → Response
invalid_transition from to = record {
  status = 409;
  body =
      error_with "invalid_cleanup_transition"
        (("from_state", word (cleanup_word from)) ∷ ("to_state", word (cleanup_word to)) ∷ []);
}

abbrev pub acceptance : CleanupReported → Option ℕ → Response
acceptance r until = record {
  status = 200;
  body = accepted (cleanup_word (cleanup_state_of r)) until;
}

-- The part of the route after the job is read. The first argument is the reported state.
unfoldable pub write_cleanup :
    CleanupReported
    → Env
    → CleanupOperationResultInput
    → CleanupJob
    → Text
    → Text
    → ℕ
    → Db
    → Handled
unfolding renew_cleanup_lease start_cleanup finish_cleanup lease_end
write_cleanup running env input j node_id job_id now db =
    let until = lease_end env.node_operation_lease_seconds now in
    if is_running j.state
    then commit (some (renew_cleanup_lease job_id until now db))
        (λ _. acceptance running (some until))
    else do
      ensure (is_dispatched j.state) (invalid_transition j.state CleanupState.running)
      commit (some (start_cleanup job_id until now db)) (λ _. acceptance running (some until))
write_cleanup r env input j node_id job_id now db = do
  ensure (is_running j.state) (invalid_transition j.state (cleanup_state_of r))
  commit (some (finish_cleanup input j node_id job_id now db)) (λ _. acceptance r none)

-- The reads and the early returns up to the job that the report is about.
unfoldable pub check_cleanup_report :
    Env
    → Request
    → Text
    → Text
    → ℕ
    → Db
    → Result Response (CleanupOperationResultInput × CleanupJob)
unfolding holds_cleanup_lease current_cleanup
check_cleanup_report env request node_id job_id now db = do
  ensure (authenticate_node env request node_id db) (fail 401 "invalid_or_revoked_agent")
  body ← or_else (read_json request) (fail 400 "invalid_json")
  input ← map_err (fail 400) (parse_cleanup_operation_result body)
  ensure (holds_cleanup_lease db job_id node_id (env.sha256 input.lease_token) now)
      (fail 409 "operation_lease_expired_or_invalid")
  current ← or_else (current_cleanup db job_id node_id) (fail 404 "cleanup_job_not_found")
  ok (input, current)

unfoldable pub report_cleanup_result : Env → Request → Text → Text → ℕ → Db → Response × Db
report_cleanup_result env request node_id job_id now db = settle db do
  (input, current) ← check_cleanup_report env request node_id job_id now db
  write_cleanup input.state env input current node_id job_id now db
