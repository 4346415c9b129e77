-- ===== src/Backups/Jobs.antt =====
-- deploy/cloudflare/src/backups.ts. The id of a new job is an argument.
use dsx_control_plane.Base.{
  ℕ, String, Bool, true, false, not, ◌&&◌, ◌||◌, eqb, Option, none, some, List, [], ◌∷◌, ◌++◌,
  Result, ok, ◌>>=◌, ◌>>◌, ensure, or_else, stop_at, map_err, leb, ltb, if◌then◌else◌,
}
use dsx_control_plane.Base.Lists.{length, every, find, select, take}
use dsx_control_plane.Text.{Text, ◌==◌, text, to_lower_case}
use dsx_control_plane.Text.Patterns.{safe_idempotency_key, is_hex_digit}
use dsx_control_plane.Json.{str, Fields, get, string_value, or_default}
use dsx_control_plane.Table.{row}
use dsx_control_plane.Table.Order.{sort}
use dsx_control_plane.Db.{Db, node_of, tenant_of, backup_of}
use dsx_control_plane.Db.States.{
  EnvironmentKind, TenantStatus, BackupState, BackupType, same_kind, same_status, artifact_index,
}
use dsx_control_plane.Db.Rows.{
  Tenant, ProvisioningJob, BackupJob, BackupArtifact, JobEvent, Payload, word, text as txt,
}
use dsx_control_plane.Http.{Env, Request, read_json, is_admin, is_live}
use dsx_control_plane.Http.Response.{
  Response, backup_job, backup_jobs, backup_view, fail, settle, commit,
}
use dsx_control_plane.Provisioning.Tenants.{admin_audit, job_event}
use dsx_control_plane.Cleanup.Jobs.{non_empty, is_present, last_ready_job, check_node}

-- UUIDISH: ^[0-9a-f-]{8,64}$ with the flag i.
unfoldable pub uuidish : Text → Bool
unfolding every is_hex_digit
uuidish s = leb 8 (length s) && leb (length s) 64 && every (λ c. is_hex_digit c || eqb c b'-') s

pub record BackupJobInput : Type 0 where
  pub tenant_id : Text
  pub idempotency_key : Text
  pub backup_type : BackupType

unfoldable pub parse_backup_job_input : Fields → Result String BackupJobInput
unfolding get string_value or_default to_lower_case uuidish safe_idempotency_key ◌==◌
parse_backup_job_input input = do
  let tenant_id = string_value (get input (text "tenant_id")) 64
  let key = string_value (get input (text "idempotency_key")) 128
  let type =
      to_lower_case
        (string_value (or_default (get input (text "backup_type")) (str (text "full"))) 32)
  ensure (uuidish tenant_id) "invalid_tenant_id"
  ensure (safe_idempotency_key key) "invalid_idempotency_key"
  ensure (type == text "full") "unsupported_backup_type"
  ok (record { tenant_id = tenant_id; idempotency_key = key; backup_type = BackupType.full })

-- The error of a tenant that may not be backed up.
unfoldable pub backup_eligibility : Tenant → Option String
unfolding same_kind same_status is_present
backup_eligibility t =
    if not (same_kind t.environment_kind EnvironmentKind.test)
    then some "backup_non_test_environment_blocked"
    else if not (same_status t.status TenantStatus.ready)
    then some "tenant_not_backup_ready"
    else if not (is_present t.assigned_node_id)
    then some "backup_node_missing"
    else if not (is_present t.database_name)
    then some "backup_database_missing"
    else none

abbrev pub is_backup_for : Text → Text → BackupJob → Bool
is_backup_for tenant_id key j = j.tenant_id == tenant_id && j.idempotency_key == key

abbrev pub backup_by_key : Db → Text → Text → Option BackupJob
backup_by_key db tenant_id key = find (is_backup_for tenant_id key) db.backup_jobs

-- What a request for a backup has found.
pub record BackupPlan : Type 0 where
  pub input : BackupJobInput
  pub tenant : Tenant
  pub provisioned : ProvisioningJob
  pub node_id : Text
  pub database_name : Text

unfoldable pub check_backup_input : BackupJobInput → Db → Result Response BackupPlan
check_backup_input input db = do
  stop_at (backup_by_key db input.tenant_id input.idempotency_key)
      (λ j. record { status = 200; body = backup_job (some j) true })
  t ← or_else (tenant_of db input.tenant_id) (fail 404 "tenant_not_found")
  stop_at (backup_eligibility t) (fail 409)
  node_id ← or_else (non_empty t.assigned_node_id) (fail 409 "backup_node_missing")
  database_name ← or_else (non_empty t.database_name) (fail 409 "backup_database_missing")
  p ← or_else (last_ready_job db t.id) (fail 409 "backup_provisioning_identity_missing")
  ensure (check_node p.node_id node_id) (fail 409 "backup_provisioning_identity_missing")
  ensure (is_live (node_of db node_id)) (fail 409 "backup_node_unavailable")
  ok (record {
    input = input;
    tenant = t;
    provisioned = p;
    node_id = node_id;
    database_name = database_name;
  })

unfoldable pub check_backup : Env → Request → Db → Result Response BackupPlan
check_backup env request db = do
  ensure (is_admin env request) (fail 401 "unauthorized")
  body ← or_else (read_json request) (fail 400 "invalid_json")
  input ← map_err (fail 400) (parse_backup_job_input body)
  check_backup_input input db

abbrev pub new_backup : BackupPlan → Text → ℕ → BackupJob
new_backup p id now = record {
  id = id;
  tenant_id = p.tenant.id;
  provisioning_job_id = p.provisioned.id;
  template_id = p.provisioned.template_id;
  node_id = p.node_id;
  database_name = p.database_name;
  environment_kind = p.tenant.environment_kind;
  backup_type = p.input.backup_type;
  state = BackupState.queued;
  idempotency_key = p.input.idempotency_key;
  attempt = 0;
  error_code = none;
  total_size_bytes = none;
  manifest_sha256 = none;
  created_at = now;
  updated_at = now;
  started_at = none;
  prepared_at = none;
  uploaded_at = none;
  verified_at = none;
  finished_at = none;
}

-- The primary key, UNIQUE (tenant_id, idempotency_key), and the length of the database's name.
unfoldable pub insert_backup : BackupJob → List BackupJob → Option (List BackupJob)
unfolding row find ◌==◌
insert_backup j js = elim (row (λ x. x.id) j.id js) [
  | some _ ↦ none
  | none ↦ elim (find (is_backup_for j.tenant_id j.idempotency_key) js) [
    | some _ ↦ none
    | none ↦
        if leb 3 (length j.database_name) && leb (length j.database_name) 63
        then some (js ++ j ∷ [])
        else none
  ]
]

abbrev queued_payload : BackupPlan → Payload
queued_payload p =
    ("tenant_id", txt p.tenant.id)
    ∷ ("node_id", txt p.node_id)
    ∷ ("database_name", txt p.database_name)
    ∷ ("backup_type", word "full")
    ∷ []

abbrev created_payload : BackupPlan → Payload
created_payload p =
    ("tenant_id", txt p.tenant.id)
    ∷ ("provisioning_job_id", txt p.provisioned.id)
    ∷ ("node_id", txt p.node_id)
    ∷ ("backup_type", word "full")
    ∷ []

-- The batch of `createBackupJob`.
unfoldable pub add_backup : BackupPlan → Text → ℕ → Db → Option Db
unfolding insert_backup
add_backup p id now db = elim (insert_backup (new_backup p id now) db.backup_jobs) [
  | none ↦ none
  | some js ↦ some (record db {
    backup_jobs = js;
    backup_job_events =
        db.backup_job_events
        ++ job_event id "backup.queued" none "queued" (queued_payload p) now ∷ [];
    audit_events =
        db.audit_events
        ++ admin_audit "backup.job.created" "backup_job" id (created_payload p) now ∷ [];
  })
]

unfoldable pub create_backup_job : Env → Request → Text → ℕ → Db → Response × Db
create_backup_job env request id now db = settle db do
  p ← check_backup env request db
  commit (add_backup p id now db)
      (λ after. record { status = 201; body = backup_job (backup_of after id) false })

abbrev newest_backup_first : BackupJob → BackupJob → Bool
newest_backup_first a b = not (leb a.created_at b.created_at)

unfoldable pub list_backup_jobs : Env → Request → Db → Response
unfolding sort
list_backup_jobs env request db =
    if is_admin env request
    then record {
      status = 200;
      body = backup_jobs (take 500 (sort newest_backup_first db.backup_jobs));
    }
    else fail 401 "unauthorized"

abbrev earlier : JobEvent → JobEvent → Bool
earlier a b = not (leb b.created_at a.created_at)

-- ORDER BY artifact_kind ASC
abbrev pub kind_before : BackupArtifact → BackupArtifact → Bool
kind_before a b = ltb (artifact_index a.artifact_kind) (artifact_index b.artifact_kind)

unfoldable pub artifacts_of : Db → Text → List BackupArtifact
unfolding sort select ◌==◌
artifacts_of db job_id =
    sort kind_before (select (λ a. a.backup_job_id == job_id) db.backup_artifacts)

unfoldable pub read_backup_job : Env → Request → Text → Db → Response
unfolding sort select artifacts_of
read_backup_job env request job_id db =
    if is_admin env request
    then elim (backup_of db job_id) [
      | none ↦ fail 404 "backup_job_not_found"
      | some j ↦ record {
        status = 200;
        body =
            backup_view j
              (take 500 (sort earlier (select (λ e. e.job_id == job_id) db.backup_job_events)))
              (artifacts_of db job_id);
      }
    ]
    else fail 401 "unauthorized"
