-- ===== src/Backups/Protocol/Moves.antt =====
-- Every request on backups moves each along its states, and keeps the stored ones complete.
use dsx_control_plane.Base.{ℕ, ◌≡◌, inl, inr, true, Option-cases, Result-cases}
use dsx_control_plane.Text.{Text}
use dsx_control_plane.Table.{row}
use dsx_control_plane.Db.{Db, backup_of}
use dsx_control_plane.Http.{Env, Request}
use dsx_control_plane.Backups.Jobs.{check_backup, add_backup, create_backup_job}
use dsx_control_plane.Backups.Protocol.{
  Step, creates, claims, reports, claims_upload, reports_upload, Reach, here, next, follows,
  IsSealed,
}
use dsx_control_plane.Backups.Protocol.Batches.{Keeps, Keeps-refl}
use dsx_control_plane.Backups.Protocol.Writes.{add_backup-Keeps}
use dsx_control_plane.Backups.Protocol.Claims.{
  claim_backup_operation-Keeps, claim_backup_upload-Keeps,
}
use dsx_control_plane.Backups.Protocol.Reports.{
  report_backup_result-Keeps, report_backup_upload_result-Keeps,
}

create_backup_job-Keeps :
    (env : Env) (r : Request) (id : Text) (now : ℕ) (db : Db)
    → Keeps db (create_backup_job env r id now db).1
unfolding create_backup_job row
create_backup_job-Keeps env r id now db = elim (Result-cases (check_backup env r db)) [
  | inl (e, h) ↦ rw (create_backup_job, h) (Keeps-refl db)
  | inr (p, h) ↦ elim (Option-cases (add_backup p id now db)) [
    | inl k ↦ rw (create_backup_job, h, k) (Keeps-refl db)
    | inr (db', k) ↦ rw (create_backup_job, h, k) (add_backup-Keeps p id now db db' k)
  ]
]

Step-Keeps : (env : Env) (db : Db) {db' : Db} → Step env db db' → Keeps db db'
Step-Keeps env db (creates r id now) = create_backup_job-Keeps env r id now db
Step-Keeps env db (claims r node token now) = claim_backup_operation-Keeps env r node token now db
Step-Keeps env db (reports r node job now) = report_backup_result-Keeps env r node job now db
Step-Keeps env db (claims_upload r node token now) =
    claim_backup_upload-Keeps env r node token now db
Step-Keeps env db (reports_upload r node job now) =
    report_backup_upload_result-Keeps env r node job now db

-- Whatever the request on backups or on their uploads, and whatever its answer: a backup that
-- appears is queued, none goes away, and each keeps its state or goes on from queued to dispatched,
-- from there to running or failed, from running to prepared or failed, or from prepared to verified.
pub BackupStep-follows :
    (env : Env) (db db' : Db)
    → Step env db db'
    → (i : Text) → follows (backup_of db i) (backup_of db' i) ≡ true
BackupStep-follows env db db' s i = (Step-Keeps env db s).follow i

-- From a database in which it holds of every backup, any sequence of requests leads to one in which
-- a backup that is prepared, uploaded or verified has a dump, a filestore archive and a manifest
-- with a size and a checksum each, its total is the sum of the three sizes, and its manifest
-- checksum is that of the stored manifest.
pub Reach-IsSealed : (env : Env) (start db : Db) → Reach env start db → IsSealed start → IsSealed db
Reach-IsSealed env start db here s i = s i
Reach-IsSealed env start db (next {db = before} reach step) s i =
    (Step-Keeps env before step).seal i (Reach-IsSealed env start before reach s i)
