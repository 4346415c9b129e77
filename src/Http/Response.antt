-- ===== src/Http/Response.antt =====
-- `json(data, status)` with the bodies that the modelled routes build, and the way a handler ends:
-- by an early return, or by a batch of statements that D1 applies whole or not at all.
use dsx_control_plane.Base.{ℕ, String, Bool, Option, none, some, List, Result, ok, err}
use dsx_control_plane.Text.{Text}
use dsx_control_plane.Db.{Db}
use dsx_control_plane.Db.Rows.{
  Tenant, Template, ProvisioningJob, CleanupJob, JobEvent, Payload, Conversion, BackupJob,
  BackupArtifact,
}

-- The `operation` that a node agent receives.
pub record Operation : Type 0 where
  pub id : Text
  pub type : String
  pub lease_token : Text
  pub lease_expires_at : ℕ
  pub payload : Payload

pub data Body : Type 0 where
  error : String → Body
  error_with : String → Payload → Body
  job : Option ProvisioningJob → Bool → Body
  job_events : ProvisioningJob → List JobEvent → Body
  jobs : List ProvisioningJob → Body
  cleanup_job : Option CleanupJob → Bool → Body
  cleanup_retried : Option CleanupJob → Body
  trial_cleanup_retried : Text → Text → Body
  cleanup_events : CleanupJob → List JobEvent → Body
  tenant : Tenant → Body
  tenants : List Tenant → Body
  templates : List Template → Body
  trial : Option (Tenant × Option CleanupJob) → Option ProvisioningJob → Bool → Body
  trials : List (Tenant × Option CleanupJob) → Body
  operation : Option Operation → Body
  conversion : Option Conversion → Bool → Body
  conversions : List Conversion → Body
  backup_job : Option BackupJob → Bool → Body
  backup_jobs : List BackupJob → Body
  backup_view : BackupJob → List JobEvent → List BackupArtifact → Body
  answer : Payload → Body
  conversion_approved :
      Option Conversion → Option Tenant → Option ProvisioningJob → Bool → Option String → Body
  conversion_placed : Option Conversion → Option ProvisioningJob → Bool → Option String → Body
  accepted : String → Option ℕ → Body

pub record Response : Type 0 where
  pub status : ℕ
  pub body : Body

-- An exception that no route catches, such as a violated constraint.
abbrev pub uncaught : Response
uncaught = record { status = 500; body = error "uncaught" }

abbrev pub fail : ℕ → String → Response
fail status code = record { status = status; body = error code }

-- A handler after its reads: a response and the database that its statements leave.
abbrev pub Handled : Type 0
Handled = Result Response (Response × Db)

-- An early return has written nothing.
abbrev pub settle : Db → Handled → Response × Db
settle db (ok done) = done
settle db (err response) = (response, db)

-- `env.DB.batch`; `none` is a statement that fails, which rolls the others back.
abbrev pub commit : Option Db → (Db → Response) → Handled
commit none respond = err uncaught
commit (some db) respond = ok (respond db, db)
