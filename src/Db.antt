-- ===== src/Db.antt =====
-- The tables of deploy/cloudflare/migrations that the modelled routes read and write, one record
-- for each row type. A column with a CHECK on a set of words is a data type. The random ids of
-- event rows are left out: no route reads them back except to break ties of an order.
pub mod States
pub mod Rows
use Rows.{
  Node, Template, Tenant, ProvisioningJob, Lease, JobEvent, AuditEvent, CleanupJob, Conversion,
  BackupJob, BackupArtifact,
}
use dsx_control_plane.Base.{List, Option}
use dsx_control_plane.Text.{Text}
use dsx_control_plane.Table.{row}

pub record Db : Type 0 where
  pub nodes : List Node
  pub templates : List Template
  pub tenants : List Tenant
  pub provisioning_jobs : List ProvisioningJob
  pub provisioning_operation_leases : List Lease
  pub provisioning_job_events : List JobEvent
  pub cleanup_jobs : List CleanupJob
  pub cleanup_operation_leases : List Lease
  pub cleanup_job_events : List JobEvent
  pub audit_events : List AuditEvent
  pub trial_conversion_requests : List Conversion
  pub backup_jobs : List BackupJob
  pub backup_operation_leases : List Lease
  pub backup_upload_leases : List Lease
  pub backup_job_events : List JobEvent
  pub backup_artifacts : List BackupArtifact

-- Rows by their primary key.
abbrev pub node_of : Db → Text → Option Node
node_of db k = row (λ n. n.id) k db.nodes

abbrev pub template_of : Db → Text → Option Template
template_of db k = row (λ p. p.id) k db.templates

abbrev pub tenant_of : Db → Text → Option Tenant
tenant_of db k = row (λ t. t.id) k db.tenants

abbrev pub job_of : Db → Text → Option ProvisioningJob
job_of db k = row (λ j. j.id) k db.provisioning_jobs

abbrev pub lease_of : Db → Text → Option Lease
lease_of db k = row (λ l. l.job_id) k db.provisioning_operation_leases

abbrev pub conversion_of : Db → Text → Option Conversion
conversion_of db k = row (λ c. c.id) k db.trial_conversion_requests

abbrev pub cleanup_of : Db → Text → Option CleanupJob
cleanup_of db k = row (λ j. j.id) k db.cleanup_jobs

abbrev pub cleanup_lease_of : Db → Text → Option Lease
cleanup_lease_of db k = row (λ l. l.job_id) k db.cleanup_operation_leases

abbrev pub backup_of : Db → Text → Option BackupJob
backup_of db k = row (λ j. j.id) k db.backup_jobs

abbrev pub backup_lease_of : Db → Text → Option Lease
backup_lease_of db k = row (λ l. l.job_id) k db.backup_operation_leases

abbrev pub upload_lease_of : Db → Text → Option Lease
upload_lease_of db k = row (λ l. l.job_id) k db.backup_upload_leases
