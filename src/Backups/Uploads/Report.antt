-- ===== src/Backups/Uploads/Report.antt =====
-- `matchesStoredArtifacts`, `verifiedReplayMatches` and `reportBackupUploadResult` of
-- deploy/cloudflare/src/backupUploadOperations.ts. `none` passes the request on to the next route.
use dsx_control_plane.Base.{
  ℕ, Bool, true, false, not, ◌&&◌, ◌||◌, String, Option, none, some, List, [], ◌∷◌, ◌++◌, map, eqb,
  ltb, leb, if◌then◌else◌, Result, ok, err, ◌>>=◌, ◌>>◌, ensure, or_else, map_err,
}
use dsx_control_plane.Base.Lists.{length, find}
use dsx_control_plane.Text.{Text, ◌==◌}
use dsx_control_plane.Time.{lease_end}
use dsx_control_plane.Table.{row, always, update, when}
use dsx_control_plane.Table.Order.{sort}
use dsx_control_plane.Db.{Db, upload_lease_of}
use dsx_control_plane.Db.States.{BackupState, artifact_index, same_artifact}
use dsx_control_plane.Db.Rows.{
  BackupJob, BackupArtifact, Lease, Payload, word, text as txt, texts, count, flag,
}
use dsx_control_plane.Http.{Env, Request, read_json, authenticate_node}
use dsx_control_plane.Http.Response.{Response, answer, fail, Handled, settle, commit}
use dsx_control_plane.Provisioning.Tenants.{job_event}
use dsx_control_plane.Provisioning.Operations.{node_audit}
use dsx_control_plane.Provisioning.Operations.Report.{renewed_lease}
use dsx_control_plane.Backups.Jobs.{artifacts_of}
use dsx_control_plane.Backups.Operations.{backup_source}
use dsx_control_plane.Backups.Report.{is_count, is_word, is_prepared, is_artifact}
use dsx_control_plane.Backups.Uploads.{expected_object_key, without_upload, state_is_prepared}
use dsx_control_plane.Backups.Uploads.Inputs.{
  VerifiedArtifact, UploadReport, running, verified, failed, UploadResult,
  parse_backup_upload_result,
}

abbrev pub is_verified : BackupState → Bool
is_verified BackupState.verified = true
is_verified _ = false

abbrev agrees : Option BackupArtifact → VerifiedArtifact → Bool
agrees none a = false
agrees (some x) a = is_count x.size_bytes a.size_bytes && is_word x.sha256 a.sha256

-- One round of the loop. The stored artifacts differ in their kinds.
abbrev pub matches_one : Text → Text → List BackupArtifact → VerifiedArtifact → Bool
matches_one tenant_id job_id stored a =
    agrees (find (λ x. same_artifact x.artifact_kind a.artifact_kind) stored) a
    && a.object_key == expected_object_key tenant_id job_id a.artifact_kind

abbrev pub matches_each : Text → Text → List BackupArtifact → List VerifiedArtifact → Bool
matches_each tenant_id job_id stored [] = true
matches_each tenant_id job_id stored (a ∷ rest) =
    matches_one tenant_id job_id stored a && matches_each tenant_id job_id stored rest

unfoldable pub matches_stored_artifacts :
    Text → Text → List BackupArtifact → List VerifiedArtifact → Bool
unfolding find same_artifact ◌==◌ expected_object_key
matches_stored_artifacts tenant_id job_id stored returned =
    eqb (length stored) 3
    && eqb (length returned) 3
    && matches_each tenant_id job_id stored returned

abbrev verified_before : VerifiedArtifact → VerifiedArtifact → Bool
verified_before a b = ltb (artifact_index a.artifact_kind) (artifact_index b.artifact_kind)

abbrev is_same_verified : BackupArtifact → VerifiedArtifact → Bool
is_same_verified x a =
    same_artifact x.artifact_kind a.artifact_kind
    && is_count x.size_bytes a.size_bytes
    && is_word x.sha256 a.sha256
    && is_word x.object_key a.object_key
    && is_word x.object_version a.object_version

abbrev all_same_verified : List BackupArtifact → List VerifiedArtifact → Bool
all_same_verified [] right = true
all_same_verified (x ∷ left) [] = false
all_same_verified (x ∷ left) (a ∷ right) = is_same_verified x a && all_same_verified left right

abbrev pub is_verified_job : Option BackupJob → Bool
is_verified_job none = false
is_verified_job (some j) = is_verified j.state

unfoldable pub verified_replay_matches : Db → Text → Text → UploadReport → Bool
unfolding row ◌==◌ sort artifacts_of same_artifact backup_source
verified_replay_matches db node_id job_id (verified returned) =
    is_verified_job (backup_source db job_id node_id)
    && eqb (length (artifacts_of db job_id)) 3
    && all_same_verified (artifacts_of db job_id) (sort verified_before returned)
verified_replay_matches db node_id job_id _ = false

abbrev lease_on : Text → Option Lease → Option Lease
lease_on node_id none = none
lease_on node_id (some l) = if l.node_id == node_id then some l else none

abbrev with_hash : Text → Option Lease → Option Lease
with_hash hash none = none
with_hash hash (some l) = if l.lease_token_hash == hash then some l else none

abbrev pub upload_lease_on : Db → Text → Text → Option Lease
upload_lease_on db job_id node_id = lease_on node_id (upload_lease_of db job_id)

abbrev pub has_upload_lease : Db → Text → Text → Bool
has_upload_lease db job_id node_id = elim (upload_lease_on db job_id node_id) [
  | none ↦ false
  | some _ ↦ true
]

-- The statement of a heartbeat.
unfoldable pub renew_upload : Text → ℕ → ℕ → Db → Db
unfolding update
renew_upload job_id until now db = record db {
  backup_upload_leases =
      update (λ l. l.job_id) job_id always (renewed_lease until now) db.backup_upload_leases;
}

abbrev pub coded_backup : Text → ℕ → BackupJob → BackupJob
coded_backup code now x = record x { error_code = some code; updated_at = now }

-- The batch of `failed`.
unfoldable pub fail_upload : Text → Text → ℕ → Db → Db
unfolding update
fail_upload code job_id now db = record db {
  backup_jobs = update (λ x. x.id) job_id state_is_prepared (coded_backup code now) db.backup_jobs;
  backup_upload_leases = without_upload job_id db;
  backup_job_events =
      db.backup_job_events
      ++ job_event job_id "backup.upload.failed" (some "prepared") "prepared"
          (("error_code", txt code) ∷ []) now
        ∷ [];
}

-- The condition and the columns of the update of one artifact.
unfoldable pub is_returned : Text → VerifiedArtifact → BackupArtifact → Bool
unfolding is_artifact ◌==◌
is_returned job_id a x =
    is_artifact job_id a.artifact_kind x
    && is_count x.size_bytes a.size_bytes
    && is_word x.sha256 a.sha256

abbrev pub stored_at : VerifiedArtifact → ℕ → BackupArtifact → BackupArtifact
stored_at a now x = record x {
  object_key = some a.object_key;
  object_version = some a.object_version;
  updated_at = now;
}

unfoldable pub store_each :
    Text → List VerifiedArtifact → ℕ → List BackupArtifact → List BackupArtifact
unfolding is_returned
store_each job_id [] now xs = xs
store_each job_id (a ∷ rest) now xs =
    store_each job_id rest now (map (when (is_returned job_id a) (stored_at a now)) xs)

abbrev pub verified_backup : ℕ → BackupJob → BackupJob
verified_backup now x = record x {
  state = BackupState.verified;
  error_code = none;
  uploaded_at = some now;
  verified_at = some now;
  finished_at = some now;
  updated_at = now;
}

-- The batch of `verified`.
unfoldable pub verify_upload : List VerifiedArtifact → Text → Text → ℕ → Db → Db
unfolding update store_each
verify_upload returned node_id job_id now db = record db {
  backup_artifacts = store_each job_id returned now db.backup_artifacts;
  backup_jobs = update (λ x. x.id) job_id state_is_prepared (verified_backup now) db.backup_jobs;
  backup_upload_leases = without_upload job_id db;
  backup_job_events =
      db.backup_job_events
      ++ job_event job_id "backup.uploaded" (some "prepared") "uploaded" [] now
        ∷ job_event job_id "backup.verified" (some "uploaded") "verified"
            (("object_keys", texts (map (λ a. a.object_key) returned)) ∷ []) now
        ∷ [];
  audit_events =
      db.audit_events
      ++ node_audit "backup.verified" "backup_job" node_id job_id
          (("artifact_count", count (length returned)) ∷ []) now
        ∷ [];
}

abbrev pub accepted : String → Payload → Response
accepted state more = record {
  status = 200;
  body = answer (("accepted", flag true) ∷ ("state", word state) ∷ more);
}

-- The part of the route after the lease is found.
unfoldable pub write_upload : UploadReport → Env → Text → Text → ℕ → Db → Handled
unfolding renew_upload fail_upload verify_upload lease_end backup_source artifacts_of
    matches_stored_artifacts
write_upload running env node_id job_id now db =
    let until = lease_end env.node_operation_lease_seconds now in
    commit (some (renew_upload job_id until now db))
      (λ _. accepted "prepared" (("lease_expires_at", count until) ∷ []))
write_upload (failed code) env node_id job_id now db =
    commit (some (fail_upload code job_id now db))
      (λ _. accepted "prepared" (("retryable", flag true) ∷ []))
write_upload (verified returned) env node_id job_id now db = do
  j ← or_else (backup_source db job_id node_id) (fail 409 "backup_upload_state_conflict")
  ensure (is_prepared j.state) (fail 409 "backup_upload_state_conflict")
  ensure (matches_stored_artifacts j.tenant_id job_id (artifacts_of db job_id) returned)
      (fail 409 "backup_upload_artifact_mismatch")
  commit (some (verify_upload returned node_id job_id now db))
      (λ _. accepted "verified" (("idempotent_replay", flag false) ∷ []))

-- The reads and the early returns up to the lease.
unfoldable pub check_upload_report :
    Env → Request → Text → Text → Db → Result Response (UploadResult × Lease)
check_upload_report env request node_id job_id db = do
  ensure (authenticate_node env request node_id db) (fail 401 "invalid_or_revoked_agent")
  body ← or_else (read_json request) (fail 400 "invalid_json")
  input ← map_err (fail 400) (parse_backup_upload_result body)
  ensure
      (has_upload_lease db job_id node_id
        || not (verified_replay_matches db node_id job_id input.report))
      (accepted "verified" (("idempotent_replay", flag true) ∷ []))
  lease ←
      or_else (with_hash (env.sha256 input.lease_token) (upload_lease_on db job_id node_id))
        (fail 409 "invalid_backup_upload_lease")
  ok (input, lease)

-- An expired lease is deleted, which the answer does not undo.
unfoldable pub apply_upload_report :
    Env → UploadResult → Lease → Text → Text → ℕ → Db → Response × Db
apply_upload_report env input lease node_id job_id now db =
    if leb lease.lease_expires_at now
    then (
      fail 409 "backup_upload_lease_expired",
      record db { backup_upload_leases = without_upload job_id db },
    )
    else settle db (write_upload input.report env node_id job_id now db)

abbrev pub report_upload : Env → Request → Text → Text → ℕ → Db → Response × Db
report_upload env request node_id job_id now db =
    elim (check_upload_report env request node_id job_id db) [
      | err response ↦ (response, db)
      | ok (input, lease) ↦ apply_upload_report env input lease node_id job_id now db
    ]

unfoldable pub report_backup_upload_result :
    Env → Request → Text → Text → ℕ → Db → Option Response × Db
report_backup_upload_result env request node_id job_id now db =
    if has_upload_lease db job_id node_id || is_verified_job (backup_source db job_id node_id)
    then (let (response, after) = report_upload env request node_id job_id now db in
        (some response, after))
    else (none, db)
