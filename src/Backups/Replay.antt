-- ===== src/Backups/Replay.antt =====
-- A report of deploy/cloudflare/src/backupOperations.ts that has prepared a backup, sent again.
pub mod Stored
use dsx_control_plane.Base.{
  ℕ, suc, ◌≡◌, refl, sym, inl, inr, Bool, true, false, some, List, [], ◌∷◌, ◌++◌, ◌∙◌, map, arith,
  Option-cases, Result-cases, Bool-cases, ok, err,
}
use dsx_control_plane.Base.Lists.{length, select, some_of}
use dsx_control_plane.Text.{Text, ◌==◌, ==_refl}
use dsx_control_plane.Json.{Fields}
use dsx_control_plane.Table.{row, row-delete, row-update}
use dsx_control_plane.Table.Order.{insert, sort}
use dsx_control_plane.Db.{Db, backup_of}
use dsx_control_plane.Db.States.{same_artifact}
use dsx_control_plane.Db.Rows.{BackupJob, BackupArtifact}
use dsx_control_plane.Http.{Env, Request, authenticate_node, read_json}
use dsx_control_plane.Http.Response.{Response, settle}
use dsx_control_plane.Backups.Jobs.{artifacts_of, kind_before}
use dsx_control_plane.Backups.Results.{
  BackupArtifactInput, BackupReport, running, prepared, failed, BackupOperationResultInput,
  parse_backup_operation_result,
}
use dsx_control_plane.Backups.Report.{
  input_before, all_same, is_running, is_artifact, new_artifact, upsert_artifact, upsert_artifacts,
  prepare_backup, prepared_replay_matches, is_prepared, replayed, holds_backup_lease,
  renew_backup_lease, failed_backup, fail_backup, write_backup, check_backup_report,
  report_backup_result,
}
use dsx_control_plane.Backups.Operations.{is_at_work}
use dsx_control_plane.Backups.Protocol.Reports.{IsSafeReport, check_backup_report-parts}
use dsx_control_plane.Backups.Protocol.Complete.{IsComplete, fresh}
use dsx_control_plane.Backups.Protocol.Prepared.{job-prepare_backup}
use dsx_control_plane.Backups.Replay.Stored.{
  authenticate_node-after, holds_backup_lease-after, prepared_replay_matches-after,
}

check_backup_report-reads :
    (env : Env) (r : Request) (node job : Text) (now : ℕ) (db : Db)
    (input : BackupOperationResultInput) (j : BackupJob)
    → check_backup_report env r node job now db ≡ ok (input, j)
    → (authenticate_node env r node db ≡ true)
      × (body : Fields) × (read_json r ≡ some body)
      × (parse_backup_operation_result body ≡ ok input)
unfolding check_backup_report
check_backup_report-reads env r node job now db input j h = elim (Option-cases (read_json r)) [
  | inl e ↦ absurd (ground arith)
  | inr (body, e) ↦ elim (Result-cases (parse_backup_operation_result body)) [
    | inl (f, p) ↦ absurd (ground arith)
    | inr (parsed, p) ↦ (ground arith, body, e, ground arith)
  ]
]

check_backup_report-again :
    (env : Env) (r : Request) (node job : Text) (later : ℕ) (after : Db) (body : Fields)
    (input : BackupOperationResultInput)
    → authenticate_node env r node after ≡ true
    → read_json r ≡ some body
    → parse_backup_operation_result body ≡ ok input
    → holds_backup_lease after job node (env.sha256 input.lease_token) later ≡ false
    → prepared_replay_matches after job input.report ≡ true
    → check_backup_report env r node job later after ≡ err replayed
unfolding check_backup_report
check_backup_report-again env r node job later after body input a b p h m =
    rw (check_backup_report, a, b, p, h, m) refl

-- What a report leaves that has not prepared the job.
module _ (env : Env) (node job : Text) (now : ℕ) (db : Db) (j : BackupJob)
    (found : backup_of db job ≡ some j) (run : is_running j.state ≡ true) where
  backup-running :
      backup_of (settle db (write_backup running env j.state node job now db)).1 job ≡ some j
  unfolding write_backup renew_backup_lease
  backup-running = rw (write_backup, run) found

  backup-failed :
      (code : Text)
      → backup_of (settle db (write_backup (failed code) env j.state node job now db)).1 job
        ≡ some (failed_backup code now j)
  unfolding write_backup fail_backup is_at_work
  backup-failed code =
      let working : is_at_work j.state ≡ true = ground (arith, run) in
      rw
        (
          write_backup,
          working,
          row-update (λ x. x.id) (λ x. is_at_work x.state) (failed_backup code now) (λ x. refl) job
              job db.backup_jobs,
          ==_refl job,
          found,
          working,
        )
        refl

  backup-prepared :
      (as' : List BackupArtifactInput) (sha : Text) (total : ℕ)
      → (settle db (write_backup (prepared as' sha total) env j.state node job now db)).1
        ≡ prepare_backup as' sha total node job now db
  unfolding write_backup
  backup-prepared as' sha total = rw (write_backup, run) refl

  -- The check of the report sent again, once it is known what the first one wrote.
  write_backup-replays :
      (report : BackupReport) (r : Request) (later : ℕ) (body : Fields)
      (input : BackupOperationResultInput) (j' : BackupJob) (after : Db)
      → input.report ≡ report
      → IsSafeReport report
      → authenticate_node env r node db ≡ true
      → read_json r ≡ some body
      → parse_backup_operation_result body ≡ ok input
      → artifacts_of db job ≡ []
      → (settle db (write_backup report env j.state node job now db)).1 ≡ after
      → backup_of after job ≡ some j'
      → is_prepared j'.state ≡ true
      → check_backup_report env r node job later after ≡ err replayed
  write_backup-replays running r later body input j' after same safe a b p none_yet e found' done =
      let kept : backup_of after job ≡ some j = rw (sym e) backup-running in
      absurd (ground (arith, kept, found', done, run))
  write_backup-replays (failed code) r later body input j' after same safe a b p none_yet e found'
        done =
      let lost : backup_of after job ≡ some (failed_backup code now j) =
        rw (sym e) (backup-failed code) in
      absurd (ground (arith, lost, found', done))
  write_backup-replays (prepared as' sha total) r later body input j' after same safe a b p none_yet
        e found' done =
      let written : prepare_backup as' sha total node job now db ≡ after =
        sym (backup-prepared as' sha total) ∙ e in
      rw (sym written) (
        check_backup_report-again env r node job later
          (prepare_backup as' sha total node job now db) body input
          (authenticate_node-after as' sha total node job now db j found run safe env r node ∙ a) b
          p
          (holds_backup_lease-after as' sha total node job now db j found run safe node
            (env.sha256 input.lease_token) later)
          (rw same (
            prepared_replay_matches-after as' sha total node job now db j found run safe none_yet)))

module _ (env : Env) (r : Request) (node job : Text) (now : ℕ) (db : Db) where
  report_backup_result-refused :
      (e : Response)
      → check_backup_report env r node job now db ≡ err e
      → (report_backup_result env r node job now db).1 ≡ db
  unfolding report_backup_result
  report_backup_result-refused e h = rw (report_backup_result, h) refl

  report_backup_result-accepted :
      (input : BackupOperationResultInput) (j : BackupJob)
      → check_backup_report env r node job now db ≡ ok (input, j)
      → (report_backup_result env r node job now db).1
        ≡ (settle db (write_backup input.report env j.state node job now db)).1
  unfolding report_backup_result
  report_backup_result-accepted input j h = rw (report_backup_result, h) refl

report_backup_result-at :
    (env : Env) (r : Request) (node job : Text) (now later : ℕ) (db after : Db) (j j' : BackupJob)
    → (report_backup_result env r node job now db).1 ≡ after
    → backup_of db job ≡ some j
    → is_running j.state ≡ true
    → artifacts_of db job ≡ []
    → backup_of after job ≡ some j'
    → is_prepared j'.state ≡ true
    → report_backup_result env r node job later after ≡ (replayed, after)
unfolding report_backup_result row
report_backup_result-at env r node job now later db after j j' e found run none_yet found' done =
    elim (Result-cases (check_backup_report env r node job now db)) [
      | inl (refusal, h) ↦
          let kept : db ≡ after =
            sym (report_backup_result-refused env r node job now db refusal h) ∙ e in
          absurd (ground (arith, kept, found, found', done, run))
      | inr ((input, k), h) ↦
          let (safe, at) = check_backup_report-parts env r node job now db input k h in
          let (a, body, b, p) = check_backup_report-reads env r node job now db input k h in
          let run' : is_running k.state ≡ true = ground (arith, at, found, run) in
          rw
            (
              report_backup_result,
              write_backup-replays env node job now db k at run' input.report r later body input j'
                  after refl safe a b p none_yet
                  (sym (report_backup_result-accepted env r node job now db input k h) ∙ e) found'
                  done,
            )
            refl
    ]

-- A report that has prepared a running backup of which no artifact was stored, sent again: the
-- lease is gone, and the answer is that it was accepted before, with nothing changed.
pub report_backup_result-again :
    (env : Env) (r : Request) (node job : Text) (now later : ℕ) (db : Db) (j j' : BackupJob)
    → backup_of db job ≡ some j
    → is_running j.state ≡ true
    → artifacts_of db job ≡ []
    → backup_of (report_backup_result env r node job now db).1 job ≡ some j'
    → is_prepared j'.state ≡ true
    → report_backup_result env r node job later (report_backup_result env r node job now db).1
      ≡ (replayed, (report_backup_result env r node job now db).1)
report_backup_result-again env r node job now later db j j' =
    report_backup_result-at env r node job now later db
      (report_backup_result env r node job now db).1 j j' refl
