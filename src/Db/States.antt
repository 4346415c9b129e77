-- ===== src/Db/States.antt =====
-- The words that CHECK constraints admit, as data, with the tests that the routes make on them.
use dsx_control_plane.Base.{String, ℕ, ◌≡◌, ◌↔◌, Bool, true, false, eqb, arith}

-- `ProvisioningState` of provisioning.ts
pub data ProvisioningState : Type 0 where
  queued placed dispatched running ready failed retrying : ProvisioningState

pub data CleanupState : Type 0 where
  queued dispatched running cleaned failed : CleanupState

pub data Sector : Type 0 where
  restaurant cafe retail supermarket : Sector

pub data EnvironmentKind : Type 0 where
  test trial production : EnvironmentKind

pub data TenantStatus : Type 0 where
  pending provisioning ready failed suspended decommissioned : TenantStatus

pub data TrialState : Type 0 where
  requested provisioning active expired cleanup_pending cleaned failed : TrialState

pub data LifecycleState : Type 0 where
  active revoked : LifecycleState

-- `TRIAL_CONVERSION_STATES` of trialConversion.ts
pub data ConversionState : Type 0 where
  requested approved provisioning ready failed cancelled : ConversionState

-- `TRIAL_CONVERSION_MODES`
pub data ConversionMode : Type 0 where
  clean_production promote_trial_data : ConversionMode

-- The position of a word in its list, which tells the words apart.
abbrev state_index : ProvisioningState → ℕ
state_index queued = 0
state_index placed = 1
state_index dispatched = 2
state_index running = 3
state_index ready = 4
state_index failed = 5
state_index retrying = 6

unfoldable pub same_state : ProvisioningState → ProvisioningState → Bool
same_state a b = eqb (state_index a) (state_index b)

abbrev cleanup_index : CleanupState → ℕ
cleanup_index queued = 0
cleanup_index dispatched = 1
cleanup_index running = 2
cleanup_index cleaned = 3
cleanup_index failed = 4

unfoldable pub same_cleanup : CleanupState → CleanupState → Bool
same_cleanup a b = eqb (cleanup_index a) (cleanup_index b)

abbrev sector_index : Sector → ℕ
sector_index restaurant = 0
sector_index cafe = 1
sector_index retail = 2
sector_index supermarket = 3

unfoldable pub same_sector : Sector → Sector → Bool
same_sector a b = eqb (sector_index a) (sector_index b)

abbrev kind_index : EnvironmentKind → ℕ
kind_index test = 0
kind_index trial = 1
kind_index production = 2

unfoldable pub same_kind : EnvironmentKind → EnvironmentKind → Bool
same_kind a b = eqb (kind_index a) (kind_index b)

abbrev status_index : TenantStatus → ℕ
status_index pending = 0
status_index provisioning = 1
status_index ready = 2
status_index failed = 3
status_index suspended = 4
status_index decommissioned = 5

unfoldable pub same_status : TenantStatus → TenantStatus → Bool
same_status a b = eqb (status_index a) (status_index b)

-- `BackupState` of backups.ts
pub data BackupState : Type 0 where
  queued dispatched running prepared uploaded verified failed : BackupState

-- CHECK (backup_type IN ('full'))
pub data BackupType : Type 0 where
  full : BackupType

-- `ArtifactKind` of backupUploadOperations.ts
pub data ArtifactKind : Type 0 where
  database_dump filestore_archive manifest : ArtifactKind

abbrev backup_index : BackupState → ℕ
backup_index queued = 0
backup_index dispatched = 1
backup_index running = 2
backup_index prepared = 3
backup_index uploaded = 4
backup_index verified = 5
backup_index failed = 6

unfoldable pub same_backup : BackupState → BackupState → Bool
same_backup a b = eqb (backup_index a) (backup_index b)

-- The alphabetic order of the words.
abbrev pub artifact_index : ArtifactKind → ℕ
artifact_index database_dump = 0
artifact_index filestore_archive = 1
artifact_index manifest = 2

unfoldable pub same_artifact : ArtifactKind → ArtifactKind → Bool
same_artifact a b = eqb (artifact_index a) (artifact_index b)

abbrev conversion_index : ConversionState → ℕ
conversion_index requested = 0
conversion_index approved = 1
conversion_index provisioning = 2
conversion_index ready = 3
conversion_index failed = 4
conversion_index cancelled = 5

unfoldable pub same_conversion : ConversionState → ConversionState → Bool
same_conversion a b = eqb (conversion_index a) (conversion_index b)

unfoldable pub is_clean : ConversionMode → Bool
is_clean clean_production = true
is_clean promote_trial_data = false

pub same_state_iff : (a b : ProvisioningState) → (same_state a b ≡ true) ↔ (a ≡ b)
unfolding same_state
same_state_iff a b = ground arith

unfoldable pub is_active : LifecycleState → Bool
is_active active = true
is_active revoked = false

abbrev pub sector_word : Sector → String
sector_word restaurant = "restaurant"
sector_word cafe = "cafe"
sector_word retail = "retail"
sector_word supermarket = "supermarket"

abbrev pub kind_word : EnvironmentKind → String
kind_word test = "test"
kind_word trial = "trial"
kind_word production = "production"

abbrev pub conversion_word : ConversionState → String
conversion_word requested = "requested"
conversion_word approved = "approved"
conversion_word provisioning = "provisioning"
conversion_word ready = "ready"
conversion_word failed = "failed"
conversion_word cancelled = "cancelled"

abbrev pub backup_word : BackupState → String
backup_word queued = "queued"
backup_word dispatched = "dispatched"
backup_word running = "running"
backup_word prepared = "prepared"
backup_word uploaded = "uploaded"
backup_word verified = "verified"
backup_word failed = "failed"

abbrev pub mode_word : ConversionMode → String
mode_word clean_production = "clean_production"
mode_word promote_trial_data = "promote_trial_data"

abbrev pub status_word : TenantStatus → String
status_word pending = "pending"
status_word provisioning = "provisioning"
status_word ready = "ready"
status_word failed = "failed"
status_word suspended = "suspended"
status_word decommissioned = "decommissioned"
