-- ===== src/Trials/Cleanup/Report.antt =====
-- `reportTrialCleanupResult` of deploy/cloudflare/src/trialCleanupOperations.ts, and
-- `retryTrialCleanup` of deploy/cloudflare/src/trialCleanupAdmin.ts. The report reads its fields as
-- `parseCleanupOperationResult` of cleanupOperations.ts does, with the same errors in the same order.
use dsx_control_plane.Base.{
  ℕ, Bool, true, false, not, ◌&&◌, ◌||◌, String, Option, none, some, [], ◌∷◌, ◌++◌, if◌then◌else◌,
  Result, ok, ◌>>=◌, ◌>>◌, ensure, or_else, stop_at, map_err,
}
use dsx_control_plane.Text.{Text, ◌==◌}
use dsx_control_plane.Time.{lease_end}
use dsx_control_plane.Table.{always, row, update, delete}
use dsx_control_plane.Db.{Db, node_of}
use dsx_control_plane.Db.States.{
  CleanupState, TenantStatus, TrialState, same_cleanup, same_status, same_kind,
}
use dsx_control_plane.Db.Rows.{Tenant, CleanupJob, word, text as txt}
use dsx_control_plane.Http.{Env, Request, read_json, authenticate_node, is_admin, is_live}
use dsx_control_plane.Http.Response.{Response, trial_cleanup_retried, fail, Handled, settle, commit}
use dsx_control_plane.Provisioning.Tenants.{job_event, admin_audit}
use dsx_control_plane.Provisioning.Retry.{code_value}
use dsx_control_plane.Provisioning.Operations.{node_audit}
use dsx_control_plane.Cleanup.Jobs.{cleanup_word, cleanup_of_tenant, is_same, requeued_cleanup}
use dsx_control_plane.Cleanup.Report.{
  CleanupReported, running, cleaned, failed, cleanup_state_of, CleanupOperationResultInput,
  parse_cleanup_operation_result, holds_cleanup_lease, on_node, renew_cleanup_lease, start_cleanup,
  cleanup_event, cleanup_report_payload, finished_cleanup, is_running, is_dispatched,
  invalid_transition, acceptance,
}
use dsx_control_plane.Trials.Expiration.{is_trial}
use dsx_control_plane.Trials.Cleanup.Claim.{trial_tenant, trial_cleanup_of, failed_trial}

unfoldable pub current_trial_cleanup : Db → Text → Text → Option CleanupJob
unfolding trial_cleanup_of ◌==◌
current_trial_cleanup db job_id node_id = on_node node_id (trial_cleanup_of db job_id)

abbrev trial_cleanup_audit : CleanupReported → String
trial_cleanup_audit running = "trial.cleanup.operation.running"
trial_cleanup_audit cleaned = "trial.cleanup.operation.cleaned"
trial_cleanup_audit failed = "trial.cleanup.operation.failed"

abbrev pub cleaned_trial : ℕ → Tenant → Tenant
cleaned_trial now t = record t {
  status = TenantStatus.decommissioned;
  trial_state = some TrialState.cleaned;
  assigned_node_id = none;
  database_name = none;
  updated_at = now;
}

-- The `UPDATE` of the tenant that the last part adds.
abbrev pub finished_trial : CleanupReported → ℕ → Tenant → Tenant
finished_trial cleaned now t = cleaned_trial now t
finished_trial _ now t = failed_trial now t

-- The batch of the last part of the route, for `cleaned` and `failed`.
unfoldable pub finish_trial_cleanup :
    CleanupOperationResultInput → CleanupJob → Text → Text → ℕ → Db → Db
unfolding update delete same_kind
finish_trial_cleanup input j node_id job_id now db = record db {
  cleanup_jobs = update (λ x. x.id) job_id always (finished_cleanup input now) db.cleanup_jobs;
  cleanup_operation_leases = delete (λ l. l.job_id) job_id db.cleanup_operation_leases;
  cleanup_job_events =
      db.cleanup_job_events
      ++ job_event job_id (cleanup_event input.state) (some "running")
          (cleanup_word (cleanup_state_of input.state)) (cleanup_report_payload input) now
        ∷ [];
  audit_events =
      db.audit_events
      ++ node_audit (trial_cleanup_audit input.state) "cleanup_job" node_id job_id
          (cleanup_report_payload input) now
        ∷ [];
  tenants = update (λ t. t.id) j.tenant_id is_trial (finished_trial input.state now) db.tenants;
}

-- The part of the route after the job is read. The first argument is the reported state.
unfoldable pub write_trial_cleanup :
    CleanupReported
    → Env
    → CleanupOperationResultInput
    → CleanupJob
    → Text
    → Text
    → ℕ
    → Db
    → Handled
unfolding renew_cleanup_lease start_cleanup finish_trial_cleanup lease_end
write_trial_cleanup running env input j node_id job_id now db = do
  let until = lease_end env.node_operation_lease_seconds now
  ensure (is_dispatched j.state || is_running j.state)
      (invalid_transition j.state CleanupState.running)
  commit
      (some (
        if is_dispatched j.state
        then start_cleanup job_id until now db
        else renew_cleanup_lease job_id until now db))
      (λ _. acceptance running (some until))
write_trial_cleanup r env input j node_id job_id now db = do
  ensure (is_running j.state) (invalid_transition j.state (cleanup_state_of r))
  commit (some (finish_trial_cleanup input j node_id job_id now db)) (λ _. acceptance r none)

-- The reads and the early returns up to the job that the report is about.
unfoldable pub check_trial_report :
    Env
    → Request
    → Text
    → Text
    → ℕ
    → Db
    → Result Response (CleanupOperationResultInput × CleanupJob)
unfolding holds_cleanup_lease current_trial_cleanup
check_trial_report env request node_id job_id now db = do
  ensure (authenticate_node env request node_id db) (fail 401 "invalid_or_revoked_agent")
  body ← or_else (read_json request) (fail 400 "invalid_json")
  input ← map_err (fail 400) (parse_cleanup_operation_result body)
  ensure (holds_cleanup_lease db job_id node_id (env.sha256 input.lease_token) now)
      (fail 409 "operation_lease_expired_or_invalid")
  current ←
      or_else (current_trial_cleanup db job_id node_id) (fail 404 "trial_cleanup_job_not_found")
  ok (input, current)

unfoldable pub report_trial_cleanup_result : Env → Request → Text → Text → ℕ → Db → Response × Db
report_trial_cleanup_result env request node_id job_id now db = settle db do
  (input, current) ← check_trial_report env request node_id job_id now db
  write_trial_cleanup input.state env input current node_id job_id now db

abbrev has_failed : Option TrialState → Bool
has_failed (some TrialState.failed) = true
has_failed _ = false

unfoldable pub is_failed_trial : Tenant → Bool
unfolding same_status
is_failed_trial t = same_status t.status TenantStatus.failed && has_failed t.trial_state

unfoldable pub trial_cleanup_retry_eligibility : CleanupJob → Tenant → Option String
unfolding same_cleanup is_failed_trial is_same
trial_cleanup_retry_eligibility j t =
    if not (same_cleanup j.state CleanupState.failed)
    then some "trial_cleanup_retry_requires_failed_job"
    else if not (is_failed_trial t)
    then some "trial_cleanup_retry_tenant_not_failed"
    else if not (is_same t.assigned_node_id j.node_id)
    then some "trial_cleanup_retry_node_mismatch"
    else if not (is_same t.database_name j.database_name)
    then some "trial_cleanup_retry_database_mismatch"
    else none

-- The join of the retry; a tenant has one clean-up at most.
unfoldable pub check_trial_retry : Env → Request → Text → Db → Result Response CleanupJob
unfolding trial_cleanup_retry_eligibility row ◌==◌ trial_tenant
check_trial_retry env request tenant_id db = do
  ensure (is_admin env request) (fail 401 "unauthorized")
  j ← or_else (cleanup_of_tenant db tenant_id) (fail 404 "trial_cleanup_job_not_found")
  t ← or_else (trial_tenant db tenant_id) (fail 404 "trial_cleanup_job_not_found")
  stop_at (trial_cleanup_retry_eligibility j t) (fail 409)
  ensure (is_live (node_of db j.node_id)) (fail 409 "trial_cleanup_node_unavailable")
  ok j

-- The batch of the retry. No statement of it can break a constraint.
unfoldable pub requeue_trial_cleanup : CleanupJob → Text → ℕ → Db → Db
unfolding update delete same_cleanup same_kind is_failed_trial
requeue_trial_cleanup j tenant_id now db = record db {
  cleanup_operation_leases = delete (λ l. l.job_id) j.id db.cleanup_operation_leases;
  cleanup_jobs =
      update (λ x. x.id) j.id (λ x. same_cleanup x.state CleanupState.failed) (requeued_cleanup now)
        db.cleanup_jobs;
  tenants =
      update (λ t. t.id) tenant_id (λ t. is_trial t && is_failed_trial t)
        (λ t. record t {
          status = TenantStatus.suspended;
          trial_state = some TrialState.cleanup_pending;
          updated_at = now;
        })
        db.tenants;
  cleanup_job_events =
      db.cleanup_job_events
      ++ job_event j.id "cleanup.retry_queued" (some "failed") "queued"
          (("previous_error_code", code_value j.error_code) ∷ ("reason", word "trial_expired") ∷ [])
          now
        ∷ [];
  audit_events =
      db.audit_events
      ++ admin_audit "trial.cleanup.retry_queued" "cleanup_job" j.id
          (("tenant_id", txt tenant_id) ∷ ("previous_error_code", code_value j.error_code) ∷ []) now
        ∷ [];
}

unfoldable pub retry_trial_cleanup : Env → Request → Text → ℕ → Db → Response × Db
retry_trial_cleanup env request tenant_id now db = settle db do
  j ← check_trial_retry env request tenant_id db
  commit (some (requeue_trial_cleanup j tenant_id now db))
      (λ _. record { status = 200; body = trial_cleanup_retried j.id tenant_id })
