-- ===== src/Tests.antt =====
-- Concrete inputs for the tests: one node, one template, one tenant, and the requests of an
-- administrator and of the node's agent. Digests are the texts themselves, and the one JSON text
-- is the node's metrics.
mod Provisioning
mod Placement
mod Claims
mod Conversions
mod Agreement
mod Cleanup
mod Trials
mod TrialCleanup
mod Backups
use dsx_control_plane.Base.{ℕ, Option, none, some, List, [], ◌∷◌, false, true, if◌then◌else◌}
use dsx_control_plane.Text.{Text, ◌==◌, text}
use dsx_control_plane.Json.{Json, str, number, object, array, cons, nil, Fields, end, field}
use dsx_control_plane.Time.{unset, at}
use dsx_control_plane.Db.{Db}
use dsx_control_plane.Db.States.{
  TenantStatus, ProvisioningState, LifecycleState, cafe, test, placed, running, failed,
  CleanupState, EnvironmentKind, TrialState,
}
use dsx_control_plane.Db.Rows.{Node, Template, Tenant, ProvisioningJob, Lease, CleanupJob}
use dsx_control_plane.Http.{Env, Request}

abbrev pub metrics : Json
metrics = object (
    field (text "memory") (object (field (text "available_bytes") (number 8589934592) end))
      (field (text "disk") (object (field (text "free_bytes") (number 107374182400) end)) end))

unfoldable pub parse : Text → Option Json
unfolding ◌==◌
parse s = if s == text "m" then some metrics else none

abbrev env : Env
env = record {
  sha256 = λ s. s;
  json_parse = parse;
  admin_api_token = text "adm";
  production_provisioning_enabled = some (text " True ");
  trial_base_domain = some (text " .Trial.example.com");
  node_offline_seconds = unset;
  node_operation_lease_seconds = unset;
}

abbrev node : Node
node = record {
  id = text "n1";
  agent_token_hash = text "tok";
  lifecycle_state = LifecycleState.active;
  role = text "odoo-postgres";
  pool = text "non-production";
  last_seen_at = some (at 1000);
  max_tenants = some 5;
  reserved_memory_mb = 512;
  reserved_disk_gb = 5;
  metrics = text "m";
  revoked_at = none;
}

abbrev template : Template
template = record {
  id = text "t1";
  sector = cafe;
  version = 1;
  odoo_major = 18;
  required_role = text "odoo-postgres";
  min_memory_mb = 1024;
  min_disk_gb = 10;
  database_prefix = text "dsx_cafe";
  module_manifest = text "x";
  active = true;
}

abbrev tenant : TenantStatus → Option Text → Tenant
tenant status assigned = record {
  id = text "c1";
  name = text "Cafe";
  slug = text "my-cafe";
  sector = cafe;
  environment_kind = test;
  status = status;
  assigned_node_id = assigned;
  database_name = none;
  trial_state = none;
  trial_request_key = none;
  trial_requested_at = none;
  trial_started_at = none;
  trial_expires_at = none;
  trial_expired_at = none;
  public_hostname = none;
  created_at = 0;
  updated_at = 0;
}

abbrev job : ProvisioningState → ProvisioningJob
job state = record {
  id = text "j1";
  tenant_id = text "c1";
  template_id = text "t1";
  node_id = some (text "n1");
  pool = text "non-production";
  state = state;
  idempotency_key = text "key-0001";
  attempt = 0;
  error_code = none;
  created_at = 0;
  updated_at = 0;
  started_at = none;
  finished_at = none;
}

abbrev lease : Lease
lease = record {
  job_id = text "j1";
  node_id = text "n1";
  lease_token_hash = text "lease-token-0000-1";
  lease_expires_at = 5000;
  created_at = 0;
  updated_at = 0;
}

abbrev pub database : List Tenant → List ProvisioningJob → List Lease → Db
database tenants jobs leases = record {
  nodes = node ∷ [];
  templates = template ∷ [];
  tenants = tenants;
  provisioning_jobs = jobs;
  provisioning_operation_leases = leases;
  provisioning_job_events = [];
  cleanup_jobs = [];
  cleanup_operation_leases = [];
  cleanup_job_events = [];
  audit_events = [];
  trial_conversion_requests = [];
  backup_jobs = [];
  backup_operation_leases = [];
  backup_upload_leases = [];
  backup_job_events = [];
  backup_artifacts = [];
}

abbrev fresh : Db
fresh = database (tenant TenantStatus.pending none ∷ []) [] []

abbrev waiting : Db
waiting = database (tenant TenantStatus.provisioning (some (text "n1")) ∷ []) (job placed ∷ []) []

abbrev working : Db
working =
    database (tenant TenantStatus.provisioning (some (text "n1")) ∷ []) (job running ∷ [])
      (lease ∷ [])

abbrev broken : Db
broken = database (tenant TenantStatus.failed (some (text "n1")) ∷ []) (job failed ∷ []) []

abbrev done : Db
done =
    database (tenant TenantStatus.ready (some (text "n1")) ∷ []) (job ProvisioningState.ready ∷ [])
      []

abbrev admin : Fields → Request
admin body = record { authorization = some (text "Bearer adm"); body = some (object body) }

abbrev agent : Fields → Request
agent body = record { authorization = some (text "bearer  tok "); body = some (object body) }

abbrev job_body : Fields
job_body = field (text "tenant_id") (str (text "c1")) (
    field (text "template_id") (str (text "T1"))
      (field (text "idempotency_key") (str (text "key-0001")) end))

abbrev ready_body : Fields
ready_body = field (text "lease_token") (str (text "lease-token-0000-1")) (
    field (text "state") (str (text "ready"))
      (field (text "database_name") (str (text "dsx_cafe_my_cafe_c1")) end))

abbrev ready_tenant : TenantStatus → Tenant
ready_tenant status = record (tenant status (some (text "n1"))) {
  database_name = some (text "dsx_cafe_my_cafe_c1");
}

abbrev cleanup : CleanupState → CleanupJob
cleanup state = record {
  id = text "k1";
  tenant_id = text "c1";
  provisioning_job_id = text "j1";
  template_id = text "t1";
  node_id = text "n1";
  database_name = text "dsx_cafe_my_cafe_c1";
  state = state;
  error_code = none;
  created_at = 0;
  updated_at = 0;
  started_at = none;
  finished_at = none;
}

abbrev cleaning : TenantStatus → List CleanupJob → List Lease → Db
cleaning status jobs leases =
    record (database (ready_tenant status ∷ []) (job ProvisioningState.ready ∷ []) []) {
      cleanup_jobs = jobs;
      cleanup_operation_leases = leases;
    }

abbrev cleanup_lease : Lease
cleanup_lease = record lease { job_id = text "k1" }

abbrev cleaned_body : Fields
cleaned_body =
    field (text "lease_token") (str (text "lease-token-0000-1"))
      (field (text "state") (str (text "Cleaned")) end)

abbrev trial : ℕ → Tenant
trial expires = record (ready_tenant TenantStatus.ready) {
  environment_kind = EnvironmentKind.trial;
  trial_state = some TrialState.active;
  trial_expires_at = some expires;
}

abbrev market : Db
market = record (database [] [] []) {
  nodes = node ∷ record node { id = text "n2"; pool = text "trial" } ∷ [];
}

abbrev trial_body : Fields
trial_body = field (text "name") (str (text "Kahve")) (
    field (text "slug") (str (text "Kahve-1")) (
      field (text "sector") (str (text "cafe"))
        (field (text "idempotency_key") (str (text "key-0009")) end)))

-- A trial that asks for a production environment, and the node that may take it.
abbrev production_node : Text
production_node = text "0b9f5f1e-7a51-4c1a-9a8e-0123456789ab"

abbrev offers : Db
offers = record (database (trial 9000 ∷ []) [] []) {
  nodes = record node { id = production_node; pool = text "production" } ∷ [];
}

abbrev conversion_body : Fields
conversion_body = field (text "idempotency_key") (str (text "convert-1")) end

abbrev placement_body : Fields
placement_body =
    field (text "confirm_production_placement") (Json.bool true)
      (field (text "node_id") (str production_node) end)

-- A tenant whose id has the form that a backup asks for, and what its agent reports.
abbrev backed_up : Db
backed_up =
    database (record (ready_tenant TenantStatus.ready) { id = text "aaaabbbb" } ∷ [])
      (record (job ProvisioningState.ready) { tenant_id = text "aaaabbbb" } ∷ []) []

abbrev backup_body : Fields
backup_body =
    field (text "tenant_id") (str (text "aaaabbbb"))
      (field (text "idempotency_key") (str (text "backup-01")) end)

abbrev backup_running_body : Fields
backup_running_body =
    field (text "lease_token") (str (text "lease-token-0000-1"))
      (field (text "state") (str (text "running")) end)

abbrev checksum : Text
checksum = text "0123456789abcdef0123456789abcdef0123456789abcdef0123456789abcdef"

abbrev artifact : Text → ℕ → Json
artifact kind size = object (
    field (text "artifact_kind") (str kind)
      (field (text "size_bytes") (number size) (field (text "sha256") (str checksum) end)))

abbrev three : Json → Json → Json → Json
three a b c = array (cons a (cons b (cons c nil)))

abbrev backup_prepared_body : Fields
backup_prepared_body = field (text "lease_token") (str (text "lease-token-0000-1")) (
    field (text "state") (str (text "prepared")) (
      field (text "artifacts")
        (three (artifact (text "database_dump") 700) (artifact (text "manifest") 20)
          (artifact (text "filestore_archive") 300))
        (field (text "manifest_sha256") (str checksum)
          (field (text "total_size_bytes") (number 1020) end))))
