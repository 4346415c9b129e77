-- ===== src/Tests/Backups.antt =====
-- A backup on concrete inputs: requested, claimed, running and prepared.
use dsx_control_plane.Base.{false, [], ◌≡◌, refl, true, none, some, Option}
use dsx_control_plane.Base.Lists.{find}
use dsx_control_plane.Text.{text}
use dsx_control_plane.Json.{end}
use dsx_control_plane.Table.{row}
use dsx_control_plane.Db.{Db, backup_of}
use dsx_control_plane.Db.States.{BackupState, EnvironmentKind, BackupType}
use dsx_control_plane.Db.Rows.{BackupJob}
use dsx_control_plane.Http.{bearer_token, is_admin, is_live, read_json, authenticate_node}
use dsx_control_plane.Http.Response.{Response, backup_job}
use dsx_control_plane.Cleanup.Jobs.{last_ready_job}
use dsx_control_plane.Backups.Jobs.{
  parse_backup_job_input, backup_eligibility, add_backup, artifacts_of, create_backup_job,
  check_backup, check_backup_input,
}
use dsx_control_plane.Backups.Results.{parse_backup_operation_result}
use dsx_control_plane.Backups.Operations.{claim_backup_operation}
use dsx_control_plane.Backups.Report.{
  prepared_backup, replayed, holds_backup_lease, write_backup, check_backup_report,
  report_backup_result,
}
use dsx_control_plane.Backups.Protocol.{
  creates, claims, reports, here, next, follows, sealed, IsSealed,
}
use dsx_control_plane.Backups.Protocol.Moves.{BackupStep-follows, Reach-IsSealed}
use dsx_control_plane.Backups.Created.{create_backup_job-found}
use dsx_control_plane.Backups.Replay.{report_backup_result-again}
use dsx_control_plane.Tests.{
  checksum, env, parse, admin, agent, backed_up, backup_body, backup_running_body,
  backup_prepared_body,
}

opened : Unit {0}
unfolding create_backup_job check_backup check_backup_input is_admin bearer_token read_json is_live
    parse claim_backup_operation report_backup_result check_backup_report authenticate_node
    parse_backup_job_input find backup_eligibility last_ready_job add_backup
    parse_backup_operation_result holds_backup_lease write_backup
opened = tt

abbrev asked : Response × Db
asked = create_backup_job env (admin backup_body) (text "b1") 2000 backed_up

abbrev claimed : Option Response × Db
claimed =
    claim_backup_operation env (agent end) (text "n1") (text "lease-token-0000-1") 2001 asked.1

abbrev started : Response × Db
started =
    report_backup_result env (agent backup_running_body) (text "n1") (text "b1") 2002 claimed.1

abbrev stored : Response × Db
stored =
    report_backup_result env (agent backup_prepared_body) (text "n1") (text "b1") 2003 started.1

abbrev state_of : Option BackupJob → Option BackupState
state_of none = none
state_of (some j) = some j.state

asked-queued : state_of (backup_of asked.1 (text "b1")) ≡ some BackupState.queued
unfolding opened
asked-queued = refl

claimed-dispatched : state_of (backup_of claimed.1 (text "b1")) ≡ some BackupState.dispatched
unfolding opened
claimed-dispatched = refl

started-running : state_of (backup_of started.1 (text "b1")) ≡ some BackupState.running
unfolding opened
started-running = refl

stored-prepared : state_of (backup_of stored.1 (text "b1")) ≡ some BackupState.prepared
unfolding opened
stored-prepared = refl

BackupStep-follows_example :
    follows (backup_of started.1 (text "b1")) (backup_of stored.1 (text "b1")) ≡ true
BackupStep-follows_example =
    BackupStep-follows env started.1 stored.1
      (reports (agent backup_prepared_body) (text "n1") (text "b1") 2003) (text "b1")

backed_up-IsSealed : IsSealed backed_up
unfolding sealed row
backed_up-IsSealed id = refl

Reach-IsSealed_example : IsSealed stored.1
Reach-IsSealed_example =
    Reach-IsSealed env backed_up stored.1
      (next
        (next
          (next (next here (creates (admin backup_body) (text "b1") 2000))
            (claims (agent end) (text "n1") (text "lease-token-0000-1") 2001))
          (reports (agent backup_running_body) (text "n1") (text "b1") 2002))
        (reports (agent backup_prepared_body) (text "n1") (text "b1") 2003))
      backed_up-IsSealed

asked-created : asked.0.status ≡ 201
unfolding opened
asked-created = refl

create_backup_job-found_example :
    (j : BackupJob) × (backup_of asked.1 (text "b1") ≡ some j)
    × (asked.0.body ≡ backup_job (some j) false)
    × (create_backup_job env (admin backup_body) (text "b2") 3000 asked.1
        ≡ (record { status = 200; body = backup_job (some j) true }, asked.1))
create_backup_job-found_example =
    create_backup_job-found env (admin backup_body) (text "b1") (text "b2") 2000 3000 backed_up
      asked-created

abbrev under_way : BackupJob
under_way = record {
  id = text "b1";
  tenant_id = text "aaaabbbb";
  provisioning_job_id = text "j1";
  template_id = text "t1";
  node_id = text "n1";
  database_name = text "dsx_cafe_my_cafe_c1";
  environment_kind = EnvironmentKind.test;
  backup_type = BackupType.full;
  state = BackupState.running;
  idempotency_key = text "backup-01";
  attempt = 1;
  error_code = none;
  total_size_bytes = none;
  manifest_sha256 = none;
  created_at = 2000;
  updated_at = 2002;
  started_at = some 2002;
  prepared_at = none;
  uploaded_at = none;
  verified_at = none;
  finished_at = none;
}

started-row : backup_of started.1 (text "b1") ≡ some under_way
unfolding opened
started-row = refl

started-bare : artifacts_of started.1 (text "b1") ≡ []
unfolding opened artifacts_of
started-bare = refl

stored-row : backup_of stored.1 (text "b1") ≡ some (prepared_backup checksum 1020 2003 under_way)
unfolding opened
stored-row = refl

report_backup_result-again_example :
    report_backup_result env (agent backup_prepared_body) (text "n1") (text "b1") 9000 stored.1
    ≡ (replayed, stored.1)
report_backup_result-again_example =
    report_backup_result-again env (agent backup_prepared_body) (text "n1") (text "b1") 2003 9000
      started.1 under_way (prepared_backup checksum 1020 2003 under_way) started-row refl
      started-bare stored-row refl
