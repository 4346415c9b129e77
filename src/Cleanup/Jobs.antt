-- ===== src/Cleanup/Jobs.antt =====
-- deploy/cloudflare/src/cleanup.ts. The id of a new job and the time are arguments.
use dsx_control_plane.Base.{
  ℕ, String, Bool, true, false, not, ◌&&◌, Option, none, some, List, [], ◌∷◌, ◌++◌, ltb, eqb,
  Result, ok, ◌>>=◌, ◌>>◌, ensure, or_else, stop_at, if◌then◌else◌,
}
use dsx_control_plane.Base.Lists.{select, take}
use dsx_control_plane.Text.{Text, ◌==◌, is_empty}
use dsx_control_plane.Table.{row, update, delete}
use dsx_control_plane.Table.Order.{sort, first}
use dsx_control_plane.Db.{Db, node_of, tenant_of, cleanup_of}
use dsx_control_plane.Db.States.{
  CleanupState, queued, dispatched, running, cleaned, failed, ProvisioningState, EnvironmentKind,
  TenantStatus, same_cleanup, same_kind, same_status, same_state,
}
use dsx_control_plane.Db.Rows.{Tenant, ProvisioningJob, CleanupJob, JobEvent, text as txt}
use dsx_control_plane.Http.{Env, Request, is_admin, is_live}
use dsx_control_plane.Http.Response.{
  Response, cleanup_job, cleanup_retried, cleanup_events, fail, settle, commit,
}
use dsx_control_plane.Provisioning.Tenants.{admin_audit, job_event}
use dsx_control_plane.Provisioning.Retry.{code_value}

abbrev pub cleanup_word : CleanupState → String
cleanup_word queued = "queued"
cleanup_word dispatched = "dispatched"
cleanup_word running = "running"
cleanup_word cleaned = "cleaned"
cleanup_word failed = "failed"

-- A column that a test on its truth finds neither NULL nor ''.
unfoldable pub non_empty : Option Text → Option Text
unfolding is_empty
non_empty none = none
non_empty (some s) = if is_empty s then none else some s

unfoldable pub is_present : Option Text → Bool
unfolding non_empty
is_present o = elim (non_empty o) [ none ↦ false | some _ ↦ true ]

-- A present column that equals `s`.
unfoldable pub is_same : Option Text → Text → Bool
unfolding non_empty ◌==◌
is_same o s = elim (non_empty o) [ none ↦ false | some a ↦ a == s ]

-- The error of a tenant that may not be cleaned.
unfoldable pub cleanup_eligibility : Tenant → Option String
unfolding same_kind same_status is_present
cleanup_eligibility t =
    if not (same_kind t.environment_kind EnvironmentKind.test)
    then some "cleanup_non_test_environment_blocked"
    else if not (same_status t.status TenantStatus.ready)
    then some "tenant_not_cleanup_ready"
    else if not (is_present t.assigned_node_id)
    then some "cleanup_node_missing"
    else if not (is_present t.database_name)
    then some "cleanup_database_missing"
    else none

unfoldable pub cleanup_retry_eligibility : CleanupJob → Tenant → Option String
unfolding same_kind same_status same_cleanup is_same
cleanup_retry_eligibility j t =
    if not (same_kind t.environment_kind EnvironmentKind.test)
    then some "cleanup_retry_non_test_environment_blocked"
    else if not (same_cleanup j.state failed)
    then some "cleanup_retry_requires_failed_job"
    else if not (same_status t.status TenantStatus.failed)
    then some "cleanup_retry_tenant_not_failed"
    else if not (is_same t.assigned_node_id j.node_id)
    then some "cleanup_retry_node_mismatch"
    else if not (is_same t.database_name j.database_name)
    then some "cleanup_retry_database_mismatch"
    else none

-- SELECT ... FROM cleanup_jobs WHERE tenant_id = ?
abbrev pub cleanup_of_tenant : Db → Text → Option CleanupJob
cleanup_of_tenant db tenant_id = row (λ j. j.tenant_id) tenant_id db.cleanup_jobs

abbrev pub is_ready_job : Text → ProvisioningJob → Bool
is_ready_job tenant_id j = j.tenant_id == tenant_id && same_state j.state ProvisioningState.ready

-- A descending order of a column that may be NULL, which comes last; the second one breaks ties.
abbrev later : Option ℕ → Option ℕ → Bool → Bool
later none none tie = tie
later none (some _) tie = false
later (some _) none tie = true
later (some a) (some b) tie = if eqb a b then tie else ltb b a

abbrev finished_later : ProvisioningJob → ProvisioningJob → Bool
finished_later a b = later a.finished_at b.finished_at (ltb b.created_at a.created_at)

unfoldable pub last_ready_job : Db → Text → Option ProvisioningJob
unfolding select sort ◌==◌ same_state
last_ready_job db tenant_id =
    first (sort finished_later (select (is_ready_job tenant_id) db.provisioning_jobs))

-- What a request for a clean-up has found.
pub record Cleanable : Type 0 where
  pub tenant : Tenant
  pub provisioned : ProvisioningJob
  pub node_id : Text
  pub database_name : Text

abbrev pub check_node : Option Text → Text → Bool
check_node none assigned = false
check_node (some n) assigned = not (is_empty n) && n == assigned

unfoldable pub check_request : Env → Request → Text → Db → Result Response Cleanable
unfolding cleanup_eligibility last_ready_job row ◌==◌ non_empty is_empty
check_request env request tenant_id db = do
  ensure (is_admin env request) (fail 401 "unauthorized")
  stop_at (cleanup_of_tenant db tenant_id)
      (λ j. record { status = 200; body = cleanup_job (some j) true })
  t ← or_else (tenant_of db tenant_id) (fail 404 "tenant_not_found")
  stop_at (cleanup_eligibility t) (fail 409)
  node_id ← or_else (non_empty t.assigned_node_id) (fail 409 "cleanup_node_missing")
  database_name ← or_else (non_empty t.database_name) (fail 409 "cleanup_database_missing")
  p ← or_else (last_ready_job db tenant_id) (fail 409 "cleanup_provisioning_identity_missing")
  ensure (check_node p.node_id node_id) (fail 409 "cleanup_provisioning_identity_missing")
  ensure (is_live (node_of db node_id)) (fail 409 "cleanup_node_unavailable")
  ok (record { tenant = t; provisioned = p; node_id = node_id; database_name = database_name })

abbrev pub new_cleanup : Cleanable → Text → ℕ → CleanupJob
new_cleanup c id now = record {
  id = id;
  tenant_id = c.tenant.id;
  provisioning_job_id = c.provisioned.id;
  template_id = c.provisioned.template_id;
  node_id = c.node_id;
  database_name = c.database_name;
  state = queued;
  error_code = none;
  created_at = now;
  updated_at = now;
  started_at = none;
  finished_at = none;
}

-- The primary key, and UNIQUE on the tenant and on the provisioning job.
unfoldable pub insert_cleanup : CleanupJob → List CleanupJob → Option (List CleanupJob)
unfolding row ◌==◌
insert_cleanup j js = elim (row (λ x. x.id) j.id js) [
  | some _ ↦ none
  | none ↦ elim (row (λ x. x.tenant_id) j.tenant_id js) [
    | some _ ↦ none
    | none ↦ elim (row (λ x. x.provisioning_job_id) j.provisioning_job_id js) [
      | some _ ↦ none
      | none ↦ some (js ++ j ∷ [])
    ]
  ]
]

-- UPDATE tenants SET status = 'suspended' ... WHERE id = ? AND status = ?
abbrev pub suspended : ℕ → Tenant → Tenant
suspended now t = record t { status = TenantStatus.suspended; updated_at = now }

abbrev pub suspend : Text → TenantStatus → ℕ → List Tenant → List Tenant
suspend id from now ts = update (λ t. t.id) id (λ t. same_status t.status from) (suspended now) ts

-- The batch of the request.
unfoldable pub queue_cleanup : Cleanable → Text → ℕ → Db → Option Db
unfolding insert_cleanup update same_status
queue_cleanup c id now db = elim (insert_cleanup (new_cleanup c id now) db.cleanup_jobs) [
  | none ↦ none
  | some js ↦ some (record db {
    cleanup_jobs = js;
    tenants = suspend c.tenant.id TenantStatus.ready now db.tenants;
    cleanup_job_events =
        db.cleanup_job_events
        ++ job_event id "cleanup.queued" none "queued"
            (("database_name", txt c.database_name) ∷ ("node_id", txt c.node_id) ∷ []) now
          ∷ [];
    audit_events =
        db.audit_events
        ++ admin_audit "cleanup.job.created" "cleanup_job" id
            (("tenant_id", txt c.tenant.id) ∷ ("provisioning_job_id", txt c.provisioned.id) ∷ [])
            now
          ∷ [];
  })
]

unfoldable pub request_cleanup : Env → Request → Text → Text → ℕ → Db → Response × Db
request_cleanup env request tenant_id id now db = settle db do
  c ← check_request env request tenant_id db
  commit (queue_cleanup c id now db)
      (λ after. record { status = 201; body = cleanup_job (cleanup_of after id) false })

unfoldable pub check_cleanup_retry :
    Env → Request → Text → Db → Result Response (CleanupJob × Tenant)
unfolding cleanup_retry_eligibility row ◌==◌
check_cleanup_retry env request job_id db = do
  ensure (is_admin env request) (fail 401 "unauthorized")
  j ← or_else (cleanup_of db job_id) (fail 404 "cleanup_job_not_found")
  t ← or_else (tenant_of db j.tenant_id) (fail 404 "tenant_not_found")
  stop_at (cleanup_retry_eligibility j t) (fail 409)
  ensure (is_live (node_of db j.node_id)) (fail 409 "cleanup_node_unavailable")
  ok (j, t)

abbrev pub requeued_cleanup : ℕ → CleanupJob → CleanupJob
requeued_cleanup now x = record x {
  state = queued;
  error_code = none;
  started_at = none;
  finished_at = none;
  updated_at = now;
}

-- The batch of the retry. No statement of it can break a constraint.
unfoldable pub requeue_cleanup : CleanupJob → Tenant → ℕ → Db → Db
unfolding update delete same_cleanup same_status
requeue_cleanup j t now db = record db {
  cleanup_operation_leases = delete (λ l. l.job_id) j.id db.cleanup_operation_leases;
  cleanup_jobs =
      update (λ x. x.id) j.id (λ x. same_cleanup x.state failed) (requeued_cleanup now)
        db.cleanup_jobs;
  tenants = suspend t.id TenantStatus.failed now db.tenants;
  cleanup_job_events =
      db.cleanup_job_events
      ++ job_event j.id "cleanup.retry_queued" (some "failed") "queued"
          (("previous_error_code", code_value j.error_code) ∷ []) now
        ∷ [];
  audit_events =
      db.audit_events
      ++ admin_audit "cleanup.job.retry_queued" "cleanup_job" j.id
          (("tenant_id", txt t.id) ∷ ("previous_error_code", code_value j.error_code) ∷ []) now
        ∷ [];
}

unfoldable pub retry_cleanup : Env → Request → Text → ℕ → Db → Response × Db
retry_cleanup env request job_id now db = settle db do
  (j, t) ← check_cleanup_retry env request job_id db
  commit (some (requeue_cleanup j t now db))
      (λ after. record { status = 200; body = cleanup_retried (cleanup_of after j.id) })

abbrev earlier : JobEvent → JobEvent → Bool
earlier a b = ltb a.created_at b.created_at

unfoldable pub read_cleanup_job : Env → Request → Text → Db → Response
unfolding row ◌==◌ sort select
read_cleanup_job env request job_id db =
    if is_admin env request
    then elim (cleanup_of db job_id) [
      | none ↦ fail 404 "cleanup_job_not_found"
      | some j ↦ record {
        status = 200;
        body =
            cleanup_events j
              (take 200 (sort earlier (select (λ e. e.job_id == job_id) db.cleanup_job_events)));
      }
    ]
    else fail 401 "unauthorized"
