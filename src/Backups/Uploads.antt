-- ===== src/Backups/Uploads.antt =====
-- The upload of prepared backups: `expectedBackupObjectKey`, `markExpiredUploadLeases` and
-- `claimBackupUpload` of deploy/cloudflare/src/backupUploadOperations.ts.
pub mod Inputs
pub mod Report
use dsx_control_plane.Base.{
  ℕ, Bool, true, false, not, ◌&&◌, ◌||◌, Option, none, some, List, [], ◌∷◌, ◌++◌, leb, ltb, eqb,
  if◌then◌else◌,
}
use dsx_control_plane.Base.Lists.{length, select, take, count_where}
use dsx_control_plane.Text.{Text, ◌==◌, text}
use dsx_control_plane.Time.{lease_end}
use dsx_control_plane.Table.{row, update, delete}
use dsx_control_plane.Table.Order.{sort, first}
use dsx_control_plane.Db.{Db, backup_of}
use dsx_control_plane.Db.States.{
  ArtifactKind, database_dump, filestore_archive, manifest, EnvironmentKind, same_kind, kind_word,
}
use dsx_control_plane.Db.Rows.{
  BackupJob, BackupArtifact, Lease, Payload, word, text as txt, count, null, artifacts, Value,
}
use dsx_control_plane.Http.{Env, Request, authenticate_node}
use dsx_control_plane.Http.Response.{Response, operation, fail}
use dsx_control_plane.Provisioning.Tenants.{job_event}
use dsx_control_plane.Provisioning.Retry.{code_value}
use dsx_control_plane.Provisioning.Operations.{expires_first, is_absent, insert_lease, node_audit}
use dsx_control_plane.Provisioning.Operations.Claim.{new_lease}
use dsx_control_plane.Backups.Jobs.{artifacts_of}
use dsx_control_plane.Backups.Operations.{backup_source}
use dsx_control_plane.Backups.Report.{is_prepared}

-- `ARTIFACTS`
abbrev pub file_of : ArtifactKind → Text
file_of database_dump = text "database.dump"
file_of filestore_archive = text "filestore.tar.gz"
file_of manifest = text "manifest.json"

unfoldable pub expected_object_key : Text → Text → ArtifactKind → Text
expected_object_key tenant_id job_id kind =
    text "test/" ++ tenant_id ++ text "/" ++ job_id ++ text "/" ++ file_of kind

unfoldable pub is_expired_upload : Text → ℕ → Lease → Bool
unfolding ◌==◌
is_expired_upload node_id now l = l.node_id == node_id && leb l.lease_expires_at now

unfoldable pub expired_upload_leases : Text → ℕ → Db → List Lease
unfolding select sort is_expired_upload
expired_upload_leases node_id now db =
    take 20 (sort expires_first (select (is_expired_upload node_id now) db.backup_upload_leases))

abbrev pub without_upload : Text → Db → List Lease
without_upload job_id db = delete (λ l. l.job_id) job_id db.backup_upload_leases

-- The batch for one expired lease.
unfoldable pub expire_upload : Text → ℕ → Db → Db
unfolding delete
expire_upload job_id now db = record db {
  backup_upload_leases = without_upload job_id db;
  backup_job_events =
      db.backup_job_events
      ++ job_event job_id "backup.upload.lease_expired" (some "prepared") "prepared" [] now ∷ [];
}

unfoldable pub expire_each_upload : List Lease → ℕ → Db → Db
unfolding expire_upload
expire_each_upload [] now db = db
expire_each_upload (l ∷ ls) now db = expire_each_upload ls now (expire_upload l.job_id now db)

unfoldable pub mark_expired_upload_leases : Text → ℕ → Db → Db
unfolding expire_each_upload expired_upload_leases
mark_expired_upload_leases node_id now db =
    expire_each_upload (expired_upload_leases node_id now db) now db

abbrev pub is_set {ℓ} : {A : Type ℓ} → Option A → Bool
is_set none = false
is_set (some _) = true

abbrev is_sized : Text → BackupArtifact → Bool
is_sized job_id a = a.backup_job_id == job_id && is_set a.size_bytes && is_set a.sha256

-- The `WHERE` of the claim. A backup has no other type than `full`.
unfoldable pub is_uploadable : Db → Text → BackupJob → Bool
unfolding row ◌==◌ same_kind count_where
is_uploadable db node_id j =
    j.node_id == node_id
    && is_prepared j.state
    && same_kind j.environment_kind EnvironmentKind.test
    && is_set j.manifest_sha256
    && is_set j.total_size_bytes
    && eqb (count_where (is_sized j.id) db.backup_artifacts) 3
    && is_absent (row (λ l. l.job_id) j.id db.backup_upload_leases)

-- NULL comes first in an ascending order.
abbrev sooner : Option ℕ → Option ℕ → Bool → Bool
sooner none none tie = tie
sooner none (some _) tie = true
sooner (some _) none tie = false
sooner (some a) (some b) tie = if eqb a b then tie else ltb a b

abbrev prepared_first : BackupJob → BackupJob → Bool
prepared_first a b = sooner a.prepared_at b.prepared_at (ltb a.created_at b.created_at)

unfoldable pub next_upload : Text → Db → Option BackupJob
unfolding sort select is_uploadable
next_upload node_id db =
    first (sort prepared_first (select (is_uploadable db node_id) db.backup_jobs))

abbrev size_value : Option ℕ → Value
size_value none = null
size_value (some n) = count n

unfoldable pub upload_payload : BackupJob → List BackupArtifact → Payload
upload_payload j stored =
    ("tenant_id", txt j.tenant_id)
    ∷ ("environment_kind", word (kind_word j.environment_kind))
    ∷ ("template_id", txt j.template_id)
    ∷ ("provisioning_operation_id", txt j.provisioning_job_id)
    ∷ ("database_name", txt j.database_name)
    ∷ ("backup_type", word "full")
    ∷ ("manifest_sha256", code_value j.manifest_sha256)
    ∷ ("total_size_bytes", size_value j.total_size_bytes)
    ∷ ("artifacts", artifacts stored)
    ∷ []

abbrev pub state_is_prepared : BackupJob → Bool
state_is_prepared x = is_prepared x.state

abbrev pub cleared_backup : ℕ → BackupJob → BackupJob
cleared_backup now x = record x { error_code = none; updated_at = now }

-- The batch that hands an upload out.
unfoldable pub dispatch_upload : BackupJob → Text → ℕ → Db → Db
unfolding update
dispatch_upload j node_id now db = record db {
  backup_jobs = update (λ x. x.id) j.id state_is_prepared (cleared_backup now) db.backup_jobs;
  backup_job_events =
      db.backup_job_events
      ++ job_event j.id "backup.upload.dispatched" (some "prepared") "prepared"
          (("node_id", txt node_id) ∷ []) now
        ∷ [];
  audit_events =
      db.audit_events
      ++ node_audit "backup.upload.claimed" "backup_job" node_id j.id
          (("operation_type", word "upload_verify_backup_artifacts") ∷ []) now
        ∷ [];
}

abbrev upload_conflict : Text → Db → Option Response × Db
upload_conflict job_id db = (
  some (fail 409 "backup_upload_claim_conflict"),
  record db { backup_upload_leases = without_upload job_id db },
)

abbrev pub upload_operation : Env → BackupJob → List BackupArtifact → Text → ℕ → Response
upload_operation env j stored lease_token now = record {
  status = 200;
  body = operation (
      some (record {
        id = j.id;
        type = "upload_verify_backup_artifacts";
        lease_token = lease_token;
        lease_expires_at = lease_end env.node_operation_lease_seconds now;
        payload = upload_payload j stored;
      }));
}

-- After the lease is inserted; `db` holds it.
unfoldable pub after_upload_lease : Env → Text → Text → Text → ℕ → Db → Option Response × Db
unfolding backup_source dispatch_upload delete lease_end upload_payload artifacts_of
after_upload_lease env job_id node_id lease_token now db = elim (backup_source db job_id node_id) [
  | none ↦ upload_conflict job_id db
  | some j ↦
      if not (is_prepared j.state) || not (eqb (length (artifacts_of db job_id)) 3)
      then upload_conflict job_id db
      else (
        some (upload_operation env j (artifacts_of db job_id) lease_token now),
        dispatch_upload j node_id now db,
      )
]

unfoldable pub claim_upload : Env → Option BackupJob → Text → Text → ℕ → Db → Option Response × Db
unfolding insert_lease after_upload_lease
claim_upload env none node_id lease_token now db = (none, db)
claim_upload env (some j) node_id lease_token now db =
    elim (insert_lease (new_lease env j.id node_id lease_token now) db.backup_upload_leases) [
      | none ↦ (none, db)
      | some ls ↦
          after_upload_lease env j.id node_id lease_token now
            (record db { backup_upload_leases = ls })
    ]

unfoldable pub claim_backup_upload : Env → Request → Text → Text → ℕ → Db → Option Response × Db
unfolding authenticate_node mark_expired_upload_leases next_upload claim_upload
claim_backup_upload env request node_id lease_token now db =
    let swept = mark_expired_upload_leases node_id now db in
    if authenticate_node env request node_id db
    then claim_upload env (next_upload node_id swept) node_id lease_token now swept
    else (some (fail 401 "invalid_or_revoked_agent"), db)
