-- ===== src/Backups/Protocol/Reports.antt =====
-- What the reports of deploy/cloudflare/src/backupOperations.ts and backupUploadOperations.ts keep.
use dsx_control_plane.Base.{
  ℕ, ◌≡◌, refl, inl, inr, Bool-cases, ◌||◌, some, Option-cases, Result-cases, arith, ok, leb,
}
use dsx_control_plane.Text.{Text, text}
use dsx_control_plane.Json.{Fields, get}
use dsx_control_plane.Table.{row}
use dsx_control_plane.Db.{Db, backup_of}
use dsx_control_plane.Db.Rows.{BackupJob, Lease}
use dsx_control_plane.Http.{Env, Request, read_json}
use dsx_control_plane.Http.Response.{settle}
use dsx_control_plane.Provisioning.Results.{state_field}
use dsx_control_plane.Backups.Jobs.{artifacts_of}
use dsx_control_plane.Backups.Results.{
  BackupReport, running, prepared, failed, BackupOperationResultInput, parse_report,
  parse_backup_operation_result,
}
use dsx_control_plane.Backups.Operations.{is_at_work, backup_source}
use dsx_control_plane.Backups.Report.{
  is_running, is_dispatched, is_prepared, renew_backup_lease, write_backup, check_backup_report,
  report_backup_result,
}
use dsx_control_plane.Backups.Uploads.Inputs.{UploadReport, UploadResult}
use dsx_control_plane.Backups.Uploads.Report.{
  matches_stored_artifacts, has_upload_lease, is_verified_job, renew_upload, write_upload,
  check_upload_report, apply_upload_report, report_upload, report_backup_upload_result,
}
use dsx_control_plane.Backups.Protocol.Complete.{IsComplete, parse_prepared-IsComplete}
use dsx_control_plane.Backups.Protocol.Batches.{Keeps, Keeps-refl, same_jobs-Keeps}
use dsx_control_plane.Backups.Protocol.Prepared.{prepare_backup-Keeps}
use dsx_control_plane.Backups.Protocol.Writes.{
  start_backup-Keeps, fail_backup-Keeps, fail_upload-Keeps, verify_upload-Keeps,
}

abbrev pub IsSafeReport : BackupReport → Type 0
IsSafeReport (prepared as' sha total) = IsComplete as' sha total
IsSafeReport _ = Unit

parse_report-IsSafe :
    (state : Text) (input : Fields) (report : BackupReport)
    → parse_report state input ≡ ok report
    → IsSafeReport report
unfolding parse_report
parse_report-IsSafe state input running h = tt
parse_report-IsSafe state input (failed code) h = tt
parse_report-IsSafe state input (prepared as' sha total) h =
    parse_prepared-IsComplete input as' sha total (ground arith)

parse_backup_operation_result-IsSafe :
    (input : Fields) (result : BackupOperationResultInput)
    → parse_backup_operation_result input ≡ ok result
    → IsSafeReport result.report
unfolding parse_backup_operation_result
parse_backup_operation_result-IsSafe input result h =
    parse_report-IsSafe (state_field (get input (text "state"))) input result.report (ground arith)

backup_source-row :
    (db : Db) (job node : Text) (j : BackupJob)
    → backup_source db job node ≡ some j
    → backup_of db job ≡ some j
unfolding backup_source row
backup_source-row db job node j h = ground arith

pub check_backup_report-parts :
    (env : Env) (r : Request) (node job : Text) (now : ℕ) (db : Db)
    (input : BackupOperationResultInput) (j : BackupJob)
    → check_backup_report env r node job now db ≡ ok (input, j)
    → IsSafeReport input.report × (backup_of db job ≡ some j)
unfolding check_backup_report
check_backup_report-parts env r node job now db input j h = elim (Option-cases (read_json r)) [
  | inl e ↦ absurd (ground arith)
  | inr (body, e) ↦ elim (Result-cases (parse_backup_operation_result body)) [
    | inl (f, p) ↦ absurd (ground arith)
    | inr (parsed, p) ↦ elim (Option-cases (backup_source db job node)) [
      | inl k ↦ absurd (ground arith)
      | inr (found, k) ↦
          let same : parsed ≡ input = ground arith in
          let same_job : found ≡ j = ground arith in
          (
            parse_backup_operation_result-IsSafe body input (ground arith),
            backup_source-row db job node j (ground arith),
          )
    ]
  ]
]

write_backup-Keeps :
    (report : BackupReport) (env : Env) (j : BackupJob) (node job : Text) (now : ℕ) (db : Db)
    → IsSafeReport report
    → backup_of db job ≡ some j
    → Keeps db (settle db (write_backup report env j.state node job now db)).1
unfolding write_backup renew_backup_lease
write_backup-Keeps running env j node job now db safe found =
    elim (Bool-cases (is_running j.state)) [
      | inl t ↦ rw (write_backup, t) (same_jobs-Keeps db _ refl (λ i kind. refl))
      | inr t ↦ elim (Bool-cases (is_dispatched j.state)) [
        | inl u ↦ rw (write_backup, t, u) (start_backup-Keeps job _ now db)
        | inr u ↦ rw (write_backup, t, u) (Keeps-refl db)
      ]
    ]
write_backup-Keeps (prepared as' sha total) env j node job now db safe found =
    elim (Bool-cases (is_running j.state)) [
      | inl t ↦
          rw (write_backup, t) (prepare_backup-Keeps as' sha total node job now db j found t safe)
      | inr t ↦ rw (write_backup, t) (Keeps-refl db)
    ]
write_backup-Keeps (failed code) env j node job now db safe found =
    elim (Bool-cases (is_at_work j.state)) [
      | inl t ↦ rw (write_backup, t) (fail_backup-Keeps code j.state node job now db)
      | inr t ↦ rw (write_backup, t) (Keeps-refl db)
    ]

pub report_backup_result-Keeps :
    (env : Env) (r : Request) (node job : Text) (now : ℕ) (db : Db)
    → Keeps db (report_backup_result env r node job now db).1
unfolding report_backup_result row
report_backup_result-Keeps env r node job now db =
    elim (Result-cases (check_backup_report env r node job now db)) [
      | inl (e, h) ↦ rw (report_backup_result, h) (Keeps-refl db)
      | inr ((input, j), h) ↦
          let (safe, found) = check_backup_report-parts env r node job now db input j h in
          rw (report_backup_result, h)
            (write_backup-Keeps input.report env j node job now db safe found)
    ]

write_upload-Keeps :
    (report : UploadReport) (env : Env) (node job : Text) (now : ℕ) (db : Db)
    → Keeps db (settle db (write_upload report env node job now db)).1
unfolding write_upload renew_upload
write_upload-Keeps UploadReport.running env node job now db =
    same_jobs-Keeps db _ refl (λ i kind. refl)
write_upload-Keeps (UploadReport.failed code) env node job now db =
    fail_upload-Keeps code job now db
write_upload-Keeps (UploadReport.verified returned) env node job now db =
    elim (Option-cases (backup_source db job node)) [
      | inl e ↦ rw (write_upload, e) (Keeps-refl db)
      | inr (j, e) ↦ elim (Bool-cases (is_prepared j.state)) [
        | inr t ↦ rw (write_upload, e, t) (Keeps-refl db)
        | inl t ↦
            elim (Bool-cases
              (matches_stored_artifacts j.tenant_id job (artifacts_of db job) returned)) [
                | inl m ↦ rw (write_upload, e, t, m) (verify_upload-Keeps returned node job now db)
                | inr m ↦ rw (write_upload, e, t, m) (Keeps-refl db)
              ]
      ]
    ]

apply_upload_report-Keeps :
    (env : Env) (input : UploadResult) (l : Lease) (node job : Text) (now : ℕ) (db : Db)
    → Keeps db (apply_upload_report env input l node job now db).1
unfolding apply_upload_report
apply_upload_report-Keeps env input l node job now db =
    elim (Bool-cases (leb l.lease_expires_at now)) [
      | inl t ↦ rw (apply_upload_report, t) (same_jobs-Keeps db _ refl (λ i kind. refl))
      | inr t ↦ rw (apply_upload_report, t) (write_upload-Keeps input.report env node job now db)
    ]

report_upload-Keeps :
    (env : Env) (r : Request) (node job : Text) (now : ℕ) (db : Db)
    → Keeps db (report_upload env r node job now db).1
report_upload-Keeps env r node job now db =
    elim (Result-cases (check_upload_report env r node job db)) [
      | inl (e, h) ↦ rw (report_upload, h) (Keeps-refl db)
      | inr ((input, l), h) ↦
          rw (report_upload, h) (apply_upload_report-Keeps env input l node job now db)
    ]

pub report_backup_upload_result-Keeps :
    (env : Env) (r : Request) (node job : Text) (now : ℕ) (db : Db)
    → Keeps db (report_backup_upload_result env r node job now db).1
unfolding report_backup_upload_result
report_backup_upload_result-Keeps env r node job now db =
    elim (Bool-cases
      (has_upload_lease db job node || is_verified_job (backup_source db job node))) [
        | inr t ↦ rw (report_backup_upload_result, t) (Keeps-refl db)
        | inl t ↦ rw (report_backup_upload_result, t) (report_upload-Keeps env r node job now db)
      ]
