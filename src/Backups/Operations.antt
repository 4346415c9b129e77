-- ===== src/Backups/Operations.antt =====
-- `markExpiredBackupLeases` and `claimBackupOperation` of
-- deploy/cloudflare/src/backupOperations.ts. A claim with no job passes the request on to the next
-- route, which `none` stands for.
use dsx_control_plane.Base.{
  ℕ, ◌+◌, Bool, true, false, not, ◌&&◌, ◌||◌, Option, none, some, List, [], ◌∷◌, ◌++◌, leb, ltb,
  if◌then◌else◌,
}
use dsx_control_plane.Base.Lists.{select, take}
use dsx_control_plane.Text.{Text, ◌==◌, text}
use dsx_control_plane.Time.{lease_end}
use dsx_control_plane.Table.{row, update, delete}
use dsx_control_plane.Table.Order.{sort, first}
use dsx_control_plane.Db.{Db, backup_of}
use dsx_control_plane.Db.States.{
  BackupState, queued, dispatched, running, failed, EnvironmentKind, same_backup, same_kind,
  backup_word, kind_word,
}
use dsx_control_plane.Db.Rows.{BackupJob, Lease, Payload, word, text as txt}
use dsx_control_plane.Http.{Env, Request, authenticate_node}
use dsx_control_plane.Http.Response.{Response, operation, fail}
use dsx_control_plane.Provisioning.Tenants.{job_event}
use dsx_control_plane.Provisioning.Operations.{expires_first, is_absent, insert_lease, node_audit}
use dsx_control_plane.Provisioning.Operations.Claim.{new_lease}

-- j.state IN ('dispatched', 'running')
unfoldable pub is_at_work : BackupState → Bool
is_at_work dispatched = true
is_at_work running = true
is_at_work _ = false

abbrev at_work_row : Option BackupJob → Bool
at_work_row none = false
at_work_row (some j) = is_at_work j.state

unfoldable pub is_expired_backup : Db → Text → ℕ → Lease → Bool
unfolding ◌==◌ row is_at_work
is_expired_backup db node_id now l =
    l.node_id == node_id && leb l.lease_expires_at now && at_work_row (backup_of db l.job_id)

unfoldable pub expired_backup_leases : Text → ℕ → Db → List Lease
unfolding select sort is_expired_backup
expired_backup_leases node_id now db =
    take 20
      (sort expires_first (select (is_expired_backup db node_id now) db.backup_operation_leases))

abbrev pub expired_backup : ℕ → BackupJob → BackupJob
expired_backup now x = record x {
  state = failed;
  error_code = some (text "operation_lease_expired");
  updated_at = now;
  finished_at = some now;
}

abbrev pub dropped : Text → Db → List Lease
dropped job_id db = delete (λ l. l.job_id) job_id db.backup_operation_leases

-- The batch for one expired lease, whose job is `j`.
unfoldable pub expire_backup : BackupJob → Text → ℕ → Db → Db
unfolding update delete is_at_work
expire_backup j job_id now db = record db {
  backup_jobs =
      update (λ x. x.id) job_id (λ x. is_at_work x.state) (expired_backup now) db.backup_jobs;
  backup_operation_leases = dropped job_id db;
  backup_job_events =
      db.backup_job_events
      ++ job_event job_id "backup.failed" (some (backup_word j.state)) "failed"
          (("error_code", word "operation_lease_expired") ∷ []) now
        ∷ [];
}

unfoldable pub expire_backup_lease : Text → ℕ → Db → Db
unfolding expire_backup row
expire_backup_lease job_id now db = elim (backup_of db job_id) [
  | none ↦ db
  | some j ↦ expire_backup j job_id now db
]

unfoldable pub expire_each_backup : List Lease → ℕ → Db → Db
unfolding expire_backup_lease
expire_each_backup [] now db = db
expire_each_backup (l ∷ ls) now db = expire_each_backup ls now (expire_backup_lease l.job_id now db)

unfoldable pub mark_expired_backup_leases : Text → ℕ → Db → Db
unfolding expire_each_backup expired_backup_leases
mark_expired_backup_leases node_id now db =
    expire_each_backup (expired_backup_leases node_id now db) now db

-- The `WHERE` of the claim.
unfoldable pub is_queued_on : Db → Text → BackupJob → Bool
unfolding row ◌==◌ same_backup
is_queued_on db node_id j =
    j.node_id == node_id
    && same_backup j.state queued
    && is_absent (row (λ l. l.job_id) j.id db.backup_operation_leases)

abbrev older : BackupJob → BackupJob → Bool
older a b = ltb a.created_at b.created_at

unfoldable pub next_backup : Text → Db → Option BackupJob
unfolding sort select is_queued_on
next_backup node_id db = first (sort older (select (is_queued_on db node_id) db.backup_jobs))

abbrev pub on_node : Text → Option BackupJob → Option BackupJob
on_node node_id none = none
on_node node_id (some j) = if j.node_id == node_id then some j else none

-- The claimed job, read back.
unfoldable pub backup_source : Db → Text → Text → Option BackupJob
unfolding row ◌==◌
backup_source db job_id node_id = on_node node_id (backup_of db job_id)

unfoldable pub backup_payload : BackupJob → Payload
backup_payload j =
    ("tenant_id", txt j.tenant_id)
    ∷ ("environment_kind", word (kind_word j.environment_kind))
    ∷ ("template_id", txt j.template_id)
    ∷ ("provisioning_operation_id", txt j.provisioning_job_id)
    ∷ ("database_name", txt j.database_name)
    ∷ ("backup_type", word "full")
    ∷ []

abbrev pub dispatched_backup : ℕ → BackupJob → BackupJob
dispatched_backup now x = record x {
  state = dispatched;
  attempt = x.attempt + 1;
  error_code = none;
  updated_at = now;
}

abbrev pub is_queued : BackupJob → Bool
is_queued x = same_backup x.state queued

-- The batch that dispatches a claimed job.
unfoldable pub dispatch_backup : BackupJob → Text → ℕ → Db → Db
unfolding update same_backup
dispatch_backup j node_id now db = record db {
  backup_jobs = update (λ x. x.id) j.id is_queued (dispatched_backup now) db.backup_jobs;
  backup_job_events =
      db.backup_job_events
      ++ job_event j.id "backup.dispatched" (some "queued") "dispatched"
          (("node_id", txt node_id) ∷ []) now
        ∷ [];
  audit_events =
      db.audit_events
      ++ node_audit "backup.operation.claimed" "backup_job" node_id j.id
          (("operation_type", word "backup_odoo_environment") ∷ []) now
        ∷ [];
}

abbrev backup_conflict : Text → Db → Option Response × Db
backup_conflict job_id db = (
  some (fail 409 "backup_operation_claim_conflict"),
  record db { backup_operation_leases = dropped job_id db },
)

abbrev pub backup_operation : Env → BackupJob → Text → ℕ → Response
backup_operation env j lease_token now = record {
  status = 200;
  body = operation (
      some (record {
        id = j.id;
        type = "backup_odoo_environment";
        lease_token = lease_token;
        lease_expires_at = lease_end env.node_operation_lease_seconds now;
        payload = backup_payload j;
      }));
}

-- After the lease is inserted; `db` holds it. A backup has no other type than `full`.
unfoldable pub after_backup_lease : Env → Text → Text → Text → ℕ → Db → Option Response × Db
unfolding backup_source dispatch_backup delete same_backup same_kind lease_end backup_payload
after_backup_lease env job_id node_id lease_token now db = elim (backup_source db job_id node_id) [
  | none ↦ backup_conflict job_id db
  | some j ↦
      if not (is_queued j) || not (same_kind j.environment_kind EnvironmentKind.test)
      then backup_conflict job_id db
      else (some (backup_operation env j lease_token now), dispatch_backup j node_id now db)
]

unfoldable pub claim_backup : Env → Option BackupJob → Text → Text → ℕ → Db → Option Response × Db
unfolding insert_lease after_backup_lease
claim_backup env none node_id lease_token now db = (none, db)
claim_backup env (some j) node_id lease_token now db =
    elim (insert_lease (new_lease env j.id node_id lease_token now) db.backup_operation_leases) [
      | none ↦ (none, db)
      | some ls ↦
          after_backup_lease env j.id node_id lease_token now
            (record db { backup_operation_leases = ls })
    ]

unfoldable pub claim_backup_operation : Env → Request → Text → Text → ℕ → Db → Option Response × Db
unfolding authenticate_node mark_expired_backup_leases next_backup claim_backup
claim_backup_operation env request node_id lease_token now db =
    let swept = mark_expired_backup_leases node_id now db in
    if authenticate_node env request node_id db
    then claim_backup env (next_backup node_id swept) node_id lease_token now swept
    else (some (fail 401 "invalid_or_revoked_agent"), db)
