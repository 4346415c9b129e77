-- ===== src/Db/Rows.antt =====
-- The row types. `Lease` serves `provisioning_operation_leases` and, with `cleanup_job_id` for
-- `job_id`, `cleanup_operation_leases`; `JobEvent` likewise.
use dsx_control_plane.Base.{ℕ, Bool, Option, List, String}
use dsx_control_plane.Text.{Text}
use dsx_control_plane.Time.{Stamp}
use dsx_control_plane.Db.States.{
  ProvisioningState, CleanupState, Sector, EnvironmentKind, TenantStatus, TrialState,
  LifecycleState, ConversionState, ConversionMode, BackupState, BackupType, ArtifactKind,
}

pub record Node : Type 0 where
  pub id : Text
  pub agent_token_hash : Text
  pub lifecycle_state : LifecycleState
  pub role : Text
  pub pool : Text
  pub last_seen_at : Option Stamp
  pub max_tenants : Option ℕ
  pub reserved_memory_mb : ℕ
  pub reserved_disk_gb : ℕ
  pub metrics : Text
  pub revoked_at : Option ℕ

-- `TemplateRow` of provisioning.ts
pub record Template : Type 0 where
  pub id : Text
  pub sector : Sector
  pub version : ℕ
  pub odoo_major : ℕ
  pub required_role : Text
  pub min_memory_mb : ℕ
  pub min_disk_gb : ℕ
  pub database_prefix : Text
  pub module_manifest : Text
  pub active : Bool

-- `TenantRow` of provisioning.ts with the trial columns of `TrialRow` of trials.ts
pub record Tenant : Type 0 where
  pub id : Text
  pub name : Text
  pub slug : Text
  pub sector : Sector
  pub environment_kind : EnvironmentKind
  pub status : TenantStatus
  pub assigned_node_id : Option Text
  pub database_name : Option Text
  pub trial_state : Option TrialState
  pub trial_request_key : Option Text
  pub trial_requested_at : Option ℕ
  pub trial_started_at : Option ℕ
  pub trial_expires_at : Option ℕ
  pub trial_expired_at : Option ℕ
  pub public_hostname : Option Text
  pub created_at : ℕ
  pub updated_at : ℕ

-- `JobRow` of provisioning.ts
pub record ProvisioningJob : Type 0 where
  pub id : Text
  pub tenant_id : Text
  pub template_id : Text
  pub node_id : Option Text
  pub pool : Text
  pub state : ProvisioningState
  pub idempotency_key : Text
  pub attempt : ℕ
  pub error_code : Option Text
  pub created_at : ℕ
  pub updated_at : ℕ
  pub started_at : Option ℕ
  pub finished_at : Option ℕ

pub record Lease : Type 0 where
  pub job_id : Text
  pub node_id : Text
  pub lease_token_hash : Text
  pub lease_expires_at : ℕ
  pub created_at : ℕ
  pub updated_at : ℕ

-- `CleanupJobRow` of cleanup.ts
pub record CleanupJob : Type 0 where
  pub id : Text
  pub tenant_id : Text
  pub provisioning_job_id : Text
  pub template_id : Text
  pub node_id : Text
  pub database_name : Text
  pub state : CleanupState
  pub error_code : Option Text
  pub created_at : ℕ
  pub updated_at : ℕ
  pub started_at : Option ℕ
  pub finished_at : Option ℕ

-- `ConversionRow` of trialConversion.ts
pub record Conversion : Type 0 where
  pub id : Text
  pub trial_tenant_id : Text
  pub request_key : Text
  pub mode : ConversionMode
  pub state : ConversionState
  pub target_tenant_id : Option Text
  pub promotion_confirmed_at : Option ℕ
  pub error_code : Option Text
  pub requested_at : ℕ
  pub updated_at : ℕ
  pub started_at : Option ℕ
  pub finished_at : Option ℕ

-- `BackupJobRow` of backups.ts
pub record BackupJob : Type 0 where
  pub id : Text
  pub tenant_id : Text
  pub provisioning_job_id : Text
  pub template_id : Text
  pub node_id : Text
  pub database_name : Text
  pub environment_kind : EnvironmentKind
  pub backup_type : BackupType
  pub state : BackupState
  pub idempotency_key : Text
  pub attempt : ℕ
  pub error_code : Option Text
  pub total_size_bytes : Option ℕ
  pub manifest_sha256 : Option Text
  pub created_at : ℕ
  pub updated_at : ℕ
  pub started_at : Option ℕ
  pub prepared_at : Option ℕ
  pub uploaded_at : Option ℕ
  pub verified_at : Option ℕ
  pub finished_at : Option ℕ

-- `BackupArtifactRow`
pub record BackupArtifact : Type 0 where
  pub backup_job_id : Text
  pub artifact_kind : ArtifactKind
  pub object_key : Option Text
  pub object_version : Option Text
  pub size_bytes : Option ℕ
  pub sha256 : Option Text
  pub created_at : ℕ
  pub updated_at : ℕ

-- A property of a payload object, before `JSON.stringify`.
pub data Value : Type 0 where
  null : Value
  word : String → Value
  text : Text → Value
  count : ℕ → Value
  texts : List Text → Value
  flag : Bool → Value
  artifacts : List BackupArtifact → Value

abbrev pub Payload : Type 0
Payload = List (String × Value)

-- States are kept as the words that the statements write.
pub record JobEvent : Type 0 where
  pub job_id : Text
  pub event_type : String
  pub from_state : Option String
  pub to_state : Option String
  pub payload : Payload
  pub created_at : ℕ

pub record AuditEvent : Type 0 where
  pub event_type : String
  pub actor_type : String
  pub actor_id : Option Text
  pub target_type : String
  pub target_id : Text
  pub payload : Payload
  pub created_at : ℕ
