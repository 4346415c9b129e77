-- ===== src/Backups/Protocol.antt =====
-- The protocol of backups, over the routes of deploy/cloudflare/src/backups.ts, backupOperations.ts
-- and backupUploadOperations.ts.
pub mod Artifacts
pub mod Complete
pub mod Batches
pub mod Writes
pub mod Prepared
pub mod Claims
pub mod Reports
pub mod Moves
use dsx_control_plane.Base.{
  ℕ, ◌+◌, ◌≡◌, Bool, true, false, not, ◌||◌, ◌&&◌, Option, none, some, List, [], ◌∷◌,
}
use dsx_control_plane.Base.Lists.{find, some_of}
use dsx_control_plane.Text.{Text}
use dsx_control_plane.Db.{Db, backup_of}
use dsx_control_plane.Db.States.{
  BackupState, queued, dispatched, running, prepared, uploaded, verified, failed, ArtifactKind,
  database_dump, filestore_archive, manifest, same_backup,
}
use dsx_control_plane.Db.Rows.{BackupJob, BackupArtifact}
use dsx_control_plane.Http.{Env, Request}
use dsx_control_plane.Backups.Jobs.{create_backup_job}
use dsx_control_plane.Backups.Operations.{claim_backup_operation}
use dsx_control_plane.Backups.Report.{is_count, is_word, is_artifact, report_backup_result}
use dsx_control_plane.Backups.Uploads.{claim_backup_upload}
use dsx_control_plane.Backups.Uploads.Report.{report_backup_upload_result}

-- One request, whatever its answer.
pub data Step (env : Env) (db : Db) : Db → Type 0 where
  creates : (r : Request) (id : Text) (now : ℕ) → Step env db (create_backup_job env r id now db).1
  claims :
      (r : Request) (node token : Text) (now : ℕ)
      → Step env db (claim_backup_operation env r node token now db).1
  reports :
      (r : Request) (node job : Text) (now : ℕ)
      → Step env db (report_backup_result env r node job now db).1
  claims_upload :
      (r : Request) (node token : Text) (now : ℕ)
      → Step env db (claim_backup_upload env r node token now db).1
  reports_upload :
      (r : Request) (node job : Text) (now : ℕ)
      → Step env db (report_backup_upload_result env r node job now db).1

pub data Reach (env : Env) (start : Db) : Db → Type 0 where
  here : Reach env start start
  next : {db db' : Db} → Reach env start db → Step env db db' → Reach env start db'

-- Where a backup may go from each state. `uploaded` is passed within the batch that verifies.
unfoldable pub successors : BackupState → List BackupState
successors queued = dispatched ∷ []
successors dispatched = running ∷ failed ∷ []
successors running = prepared ∷ failed ∷ []
successors prepared = verified ∷ []
successors uploaded = []
successors verified = []
successors failed = []

-- A backup keeps its state or goes on; a new one is queued; none goes away.
unfoldable pub follows : Option BackupJob → Option BackupJob → Bool
unfolding successors some_of same_backup
follows none none = true
follows none (some j) = same_backup j.state queued
follows (some j) none = false
follows (some j) (some j') =
    same_backup j.state j'.state || some_of (same_backup j'.state) (successors j.state)

-- The size and the checksum of an artifact that is stored.
abbrev pub Content : Type 0
Content = Option (Option ℕ × Option Text)

abbrev pub content : Option BackupArtifact → Content
content none = none
content (some a) = some (a.size_bytes, a.sha256)

abbrev pub content_of : Db → Text → ArtifactKind → Content
content_of db id kind = content (find (is_artifact id kind) db.backup_artifacts)

-- prepared, uploaded or verified
abbrev pub is_stored : BackupState → Bool
is_stored prepared = true
is_stored uploaded = true
is_stored verified = true
is_stored _ = false

-- All three artifacts have a size and a checksum, the sizes add up to the total, and the checksum of
-- the manifest is the job's.
abbrev pub is_whole : BackupJob → Content → Content → Content → Bool
is_whole j (some (some a, some _)) (some (some b, some _)) (some (some c, some sha)) =
    is_count j.total_size_bytes (a + b + c) && is_word j.manifest_sha256 sha
is_whole j _ _ _ = false

unfoldable pub sealed : Option BackupJob → Content → Content → Content → Bool
sealed none dump files list = true
sealed (some j) dump files list = not (is_stored j.state) || is_whole j dump files list

-- A backup whose artifacts are stored is complete and agrees with its totals.
abbrev pub IsSealedAt : Db → Text → Type 0
IsSealedAt db id =
    sealed (backup_of db id) (content_of db id database_dump) (content_of db id filestore_archive)
      (content_of db id manifest)
    ≡ true

abbrev pub IsSealed : Db → Type 0
IsSealed db = (id : Text) → IsSealedAt db id
