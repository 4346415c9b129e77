-- ===== src/Backups/Report.antt =====
-- `preparedReplayMatches` and `reportBackupResult` of deploy/cloudflare/src/backupOperations.ts.
use dsx_control_plane.Base.{
  ℕ, Bool, true, false, ◌&&◌, String, Option, none, some, List, [], ◌∷◌, ◌++◌, eqb, ltb,
  if◌then◌else◌, Result, ok, ◌>>=◌, ◌>>◌, ensure, or_else, map_err,
}
use dsx_control_plane.Base.Lists.{length}
use dsx_control_plane.Text.{Text, ◌==◌}
use dsx_control_plane.Time.{lease_end}
use dsx_control_plane.Table.{row, always, update}
use dsx_control_plane.Table.Order.{sort}
use dsx_control_plane.Db.{Db, backup_of, backup_lease_of}
use dsx_control_plane.Db.States.{
  BackupState, ArtifactKind, artifact_index, same_artifact, backup_word,
}
use dsx_control_plane.Db.Rows.{
  BackupJob, BackupArtifact, Lease, Payload, word, text as txt, count, flag,
}
use dsx_control_plane.Http.{Env, Request, read_json, authenticate_node}
use dsx_control_plane.Http.Response.{Response, error_with, answer, fail, Handled, settle, commit}
use dsx_control_plane.Provisioning.Tenants.{job_event}
use dsx_control_plane.Provisioning.Operations.{node_audit}
use dsx_control_plane.Provisioning.Operations.Report.{is_held, renewed_lease, coalesce}
use dsx_control_plane.Backups.Jobs.{artifacts_of}
use dsx_control_plane.Backups.Results.{
  BackupArtifactInput, BackupReport, running, prepared, failed, BackupOperationResultInput,
  parse_backup_operation_result,
}
use dsx_control_plane.Backups.Operations.{is_at_work, backup_source, dropped}

abbrev pub input_before : BackupArtifactInput → BackupArtifactInput → Bool
input_before a b = ltb (artifact_index a.artifact_kind) (artifact_index b.artifact_kind)

abbrev pub is_count : Option ℕ → ℕ → Bool
is_count none n = false
is_count (some m) n = eqb m n

abbrev pub is_word : Option Text → Text → Bool
is_word none s = false
is_word (some a) s = a == s

abbrev pub is_same_artifact : BackupArtifact → BackupArtifactInput → Bool
is_same_artifact a b =
    same_artifact a.artifact_kind b.artifact_kind
    && is_count a.size_bytes b.size_bytes
    && is_word a.sha256 b.sha256

-- `left.every(...)`; both lists have three items.
abbrev pub all_same : List BackupArtifact → List BackupArtifactInput → Bool
all_same [] right = true
all_same (a ∷ left) [] = false
all_same (a ∷ left) (b ∷ right) = is_same_artifact a b && all_same left right

abbrev pub is_prepared : BackupState → Bool
is_prepared BackupState.prepared = true
is_prepared _ = false

abbrev has_totals : Option BackupJob → Text → ℕ → Bool
has_totals none sha total = false
has_totals (some j) sha total =
    is_prepared j.state && is_word j.manifest_sha256 sha && is_count j.total_size_bytes total

unfoldable pub prepared_replay_matches : Db → Text → BackupReport → Bool
unfolding row ◌==◌ sort artifacts_of same_artifact
prepared_replay_matches db job_id (prepared artifacts sha total) =
    has_totals (backup_of db job_id) sha total
    && eqb (length (artifacts_of db job_id)) 3
    && all_same (artifacts_of db job_id) (sort input_before artifacts)
prepared_replay_matches db job_id _ = false

-- The `SELECT` of the lease, as a test.
unfoldable pub holds_backup_lease : Db → Text → Text → Text → ℕ → Bool
unfolding row ◌==◌
holds_backup_lease db job_id node_id hash now = is_held node_id hash now (backup_lease_of db job_id)

abbrev renewed : Text → ℕ → ℕ → Db → List Lease
renewed job_id until now db =
    update (λ l. l.job_id) job_id always (renewed_lease until now) db.backup_operation_leases

-- The statement of a heartbeat on a running job.
unfoldable pub renew_backup_lease : Text → ℕ → ℕ → Db → Db
unfolding update
renew_backup_lease job_id until now db = record db {
  backup_operation_leases = renewed job_id until now db;
}

abbrev pub is_dispatched : BackupState → Bool
is_dispatched BackupState.dispatched = true
is_dispatched _ = false

abbrev pub is_running : BackupState → Bool
is_running BackupState.running = true
is_running _ = false

abbrev pub running_backup : ℕ → BackupJob → BackupJob
running_backup now x = record x {
  state = BackupState.running;
  started_at = coalesce x.started_at now;
  updated_at = now;
}

-- The batch of a first `running`.
unfoldable pub start_backup : Text → ℕ → ℕ → Db → Db
unfolding update
start_backup job_id until now db = record db {
  backup_jobs =
      update (λ x. x.id) job_id (λ x. is_dispatched x.state) (running_backup now) db.backup_jobs;
  backup_operation_leases = renewed job_id until now db;
  backup_job_events =
      db.backup_job_events
      ++ job_event job_id "backup.running" (some "dispatched") "running" [] now ∷ [];
}

-- What UNIQUE (backup_job_id, artifact_kind) tells apart.
unfoldable pub is_artifact : Text → ArtifactKind → BackupArtifact → Bool
unfolding ◌==◌ same_artifact
is_artifact job_id kind x = x.backup_job_id == job_id && same_artifact x.artifact_kind kind

abbrev pub new_artifact : Text → BackupArtifactInput → ℕ → BackupArtifact
new_artifact job_id a now = record {
  backup_job_id = job_id;
  artifact_kind = a.artifact_kind;
  object_key = none;
  object_version = none;
  size_bytes = some a.size_bytes;
  sha256 = some a.sha256;
  created_at = now;
  updated_at = now;
}

abbrev pub replaced_artifact : BackupArtifactInput → ℕ → BackupArtifact → BackupArtifact
replaced_artifact a now x = record x {
  size_bytes = some a.size_bytes;
  sha256 = some a.sha256;
  updated_at = now;
}

-- `INSERT ... ON CONFLICT(backup_job_id, artifact_kind) DO UPDATE`
unfoldable pub upsert_artifact :
    Text → BackupArtifactInput → ℕ → List BackupArtifact → List BackupArtifact
unfolding is_artifact
upsert_artifact job_id a now [] = new_artifact job_id a now ∷ []
upsert_artifact job_id a now (x ∷ xs) =
    let rest = upsert_artifact job_id a now xs in
    if is_artifact job_id a.artifact_kind x then replaced_artifact a now x ∷ xs else x ∷ rest

unfoldable pub upsert_artifacts :
    Text → List BackupArtifactInput → ℕ → List BackupArtifact → List BackupArtifact
unfolding upsert_artifact
upsert_artifacts job_id [] now xs = xs
upsert_artifacts job_id (a ∷ rest) now xs =
    upsert_artifacts job_id rest now (upsert_artifact job_id a now xs)

abbrev pub prepared_backup : Text → ℕ → ℕ → BackupJob → BackupJob
prepared_backup sha total now x = record x {
  state = BackupState.prepared;
  total_size_bytes = some total;
  manifest_sha256 = some sha;
  prepared_at = some now;
  updated_at = now;
}

abbrev prepared_payload : Text → ℕ → Payload
prepared_payload sha total = ("manifest_sha256", txt sha) ∷ ("total_size_bytes", count total) ∷ []

-- The batch of `prepared`.
unfoldable pub prepare_backup : List BackupArtifactInput → Text → ℕ → Text → Text → ℕ → Db → Db
unfolding update upsert_artifacts
prepare_backup artifacts sha total node_id job_id now db = record db {
  backup_jobs =
      update (λ x. x.id) job_id (λ x. is_running x.state) (prepared_backup sha total now)
        db.backup_jobs;
  backup_operation_leases = dropped job_id db;
  backup_job_events =
      db.backup_job_events
      ++ job_event job_id "backup.prepared" (some "running") "prepared" (prepared_payload sha total)
          now
        ∷ [];
  audit_events =
      db.audit_events
      ++ node_audit "backup.operation.prepared" "backup_job" node_id job_id
          (prepared_payload sha total) now
        ∷ [];
  backup_artifacts = upsert_artifacts job_id artifacts now db.backup_artifacts;
}

abbrev pub failed_backup : Text → ℕ → BackupJob → BackupJob
failed_backup code now x = record x {
  state = BackupState.failed;
  error_code = some code;
  updated_at = now;
  finished_at = some now;
}

-- The batch of `failed`; `from` is the state that was read.
unfoldable pub fail_backup : Text → BackupState → Text → Text → ℕ → Db → Db
unfolding update is_at_work
fail_backup code from node_id job_id now db = record db {
  backup_jobs =
      update (λ x. x.id) job_id (λ x. is_at_work x.state) (failed_backup code now) db.backup_jobs;
  backup_operation_leases = dropped job_id db;
  backup_job_events =
      db.backup_job_events
      ++ job_event job_id "backup.failed" (some (backup_word from)) "failed"
          (("error_code", txt code) ∷ []) now
        ∷ [];
  audit_events =
      db.audit_events
      ++ node_audit "backup.operation.failed" "backup_job" node_id job_id
          (("error_code", txt code) ∷ []) now
        ∷ [];
}

abbrev invalid_transition : BackupState → String → Response
invalid_transition from to = record {
  status = 409;
  body =
      error_with "invalid_backup_transition"
        (("from_state", word (backup_word from)) ∷ ("to_state", word to) ∷ []);
}

abbrev pub accept : String → Payload → Response
accept state more = record {
  status = 200;
  body = answer (("status", word "accepted") ∷ ("state", word state) ∷ more);
}

abbrev pub replayed : Response
replayed = accept "prepared" (("idempotent_replay", flag true) ∷ [])

-- The part of the route after the job is read.
unfoldable pub write_backup : BackupReport → Env → BackupState → Text → Text → ℕ → Db → Handled
unfolding renew_backup_lease start_backup prepare_backup fail_backup lease_end is_at_work
write_backup running env state node_id job_id now db =
    let until = lease_end env.node_operation_lease_seconds now in
    let answered = accept "running" (("lease_expires_at", count until) ∷ []) in
    if is_running state
    then commit (some (renew_backup_lease job_id until now db)) (λ _. answered)
    else do
      ensure (is_dispatched state) (invalid_transition state "running")
      commit (some (start_backup job_id until now db)) (λ _. answered)
write_backup (prepared artifacts sha total) env state node_id job_id now db = do
  ensure (is_running state) (invalid_transition state "prepared")
  commit (some (prepare_backup artifacts sha total node_id job_id now db))
      (λ _. accept "prepared" [])
write_backup (failed code) env state node_id job_id now db = do
  ensure (is_at_work state) (invalid_transition state "failed")
  commit (some (fail_backup code state node_id job_id now db)) (λ _. accept "failed" [])

abbrev pub without_lease : Db → Text → BackupReport → Response
without_lease db job_id report =
    if prepared_replay_matches db job_id report
    then replayed
    else fail 409 "operation_lease_expired_or_invalid"

-- The reads and the early returns up to the job that the report is about.
unfoldable pub check_backup_report :
    Env → Request → Text → Text → ℕ → Db → Result Response (BackupOperationResultInput × BackupJob)
check_backup_report env request node_id job_id now db = do
  ensure (authenticate_node env request node_id db) (fail 401 "invalid_or_revoked_agent")
  body ← or_else (read_json request) (fail 400 "invalid_json")
  input ← map_err (fail 400) (parse_backup_operation_result body)
  ensure (holds_backup_lease db job_id node_id (env.sha256 input.lease_token) now)
      (without_lease db job_id input.report)
  current ← or_else (backup_source db job_id node_id) (fail 404 "backup_job_not_found")
  ok (input, current)

unfoldable pub report_backup_result : Env → Request → Text → Text → ℕ → Db → Response × Db
report_backup_result env request node_id job_id now db = settle db do
  (input, current) ← check_backup_report env request node_id job_id now db
  write_backup input.report env current.state node_id job_id now db
