-- ===== src/Backups/Protocol/Claims.antt =====
-- What the sweeps and the claims of deploy/cloudflare/src/backupOperations.ts and
-- backupUploadOperations.ts keep.
use dsx_control_plane.Base.{
  eqb, ℕ, refl, inl, inr, Bool-cases, ◌||◌, not, Option, none, some, List, [], ◌∷◌, Option-cases,
}
use dsx_control_plane.Base.Lists.{length}
use dsx_control_plane.Text.{Text}
use dsx_control_plane.Table.{row}
use dsx_control_plane.Db.{Db, backup_of}
use dsx_control_plane.Db.States.{EnvironmentKind, same_kind}
use dsx_control_plane.Db.Rows.{BackupJob, Lease}
use dsx_control_plane.Http.{Env, Request, authenticate_node}
use dsx_control_plane.Provisioning.Operations.{insert_lease}
use dsx_control_plane.Provisioning.Operations.Claim.{new_lease}
use dsx_control_plane.Backups.Jobs.{artifacts_of}
use dsx_control_plane.Backups.Operations.{
  expire_backup_lease, expire_each_backup, mark_expired_backup_leases, expired_backup_leases,
  backup_source, is_queued, next_backup, after_backup_lease, claim_backup, claim_backup_operation,
}
use dsx_control_plane.Backups.Report.{is_prepared}
use dsx_control_plane.Backups.Uploads.{
  expire_upload, expire_each_upload, mark_expired_upload_leases, expired_upload_leases, next_upload,
  after_upload_lease, claim_upload, claim_backup_upload,
}
use dsx_control_plane.Backups.Protocol.Batches.{
  Keeps, Keeps-refl, same_jobs-Keeps, Sweeps, Sweeps-refl, Sweeps-trans, Sweeps-Keeps,
}
use dsx_control_plane.Backups.Protocol.Writes.{
  dispatch_backup-Keeps, dispatch_upload-Keeps, expire_backup-Sweeps,
}

expire_backup_lease-Sweeps :
    (job : Text) (now : ℕ) (db : Db) → Sweeps db (expire_backup_lease job now db)
unfolding row expire_backup_lease
expire_backup_lease-Sweeps job now db = elim (Option-cases (backup_of db job)) [
  | inl e ↦ rw (expire_backup_lease, e) (Sweeps-refl db)
  | inr (j, e) ↦ rw (expire_backup_lease, e) (expire_backup-Sweeps db job now j)
]

expire_each_backup-Sweeps :
    (ls : List Lease) (now : ℕ) (db : Db) → Sweeps db (expire_each_backup ls now db)
unfolding expire_each_backup
expire_each_backup-Sweeps [] now db = Sweeps-refl db
expire_each_backup-Sweeps (l ∷ ls) now db =
    let first = expire_backup_lease l.job_id now db in
    Sweeps-trans db first (expire_each_backup ls now first)
      (expire_backup_lease-Sweeps l.job_id now db) (expire_each_backup-Sweeps ls now first)

expire_each_upload-Sweeps :
    (ls : List Lease) (now : ℕ) (db : Db) → Sweeps db (expire_each_upload ls now db)
unfolding expire_each_upload expire_upload
expire_each_upload-Sweeps [] now db = Sweeps-refl db
expire_each_upload-Sweeps (l ∷ ls) now db =
    let first = expire_upload l.job_id now db in
    Sweeps-trans db first (expire_each_upload ls now first)
      (record { jobs = λ i. inl refl; contents = λ i kind. refl })
      (expire_each_upload-Sweeps ls now first)

-- A batch that writes neither jobs nor artifacts.
abbrev with_leases : List Lease → Db → Db
with_leases ls db = record db { backup_operation_leases = ls }

abbrev with_upload_leases : List Lease → Db → Db
with_upload_leases ls db = record db { backup_upload_leases = ls }

with_leases-Sweeps : (ls : List Lease) (db : Db) → Sweeps db (with_leases ls db)
with_leases-Sweeps ls db = record { jobs = λ i. inl refl; contents = λ i kind. refl }

with_upload_leases-Sweeps : (ls : List Lease) (db : Db) → Sweeps db (with_upload_leases ls db)
with_upload_leases-Sweeps ls db = record { jobs = λ i. inl refl; contents = λ i kind. refl }

after_backup_lease-Keeps :
    (env : Env) (job node token : Text) (now : ℕ) (db : Db)
    → Keeps db (after_backup_lease env job node token now db).1
unfolding after_backup_lease
after_backup_lease-Keeps env job node token now db =
    elim (Option-cases (backup_source db job node)) [
      | inl e ↦ rw (after_backup_lease, e) (same_jobs-Keeps db _ refl (λ i kind. refl))
      | inr (j, e) ↦
          elim (Bool-cases
            (not (is_queued j) || not (same_kind j.environment_kind EnvironmentKind.test))) [
              | inl t ↦ rw (after_backup_lease, e, t) (same_jobs-Keeps db _ refl (λ i kind. refl))
              | inr t ↦ rw (after_backup_lease, e, t) (dispatch_backup-Keeps j node now db)
            ]
    ]

claim_backup-Keeps :
    (env : Env) (o : Option BackupJob) (node token : Text) (now : ℕ) (db : Db)
    → Keeps db (claim_backup env o node token now db).1
unfolding claim_backup
claim_backup-Keeps env none node token now db = Keeps-refl db
claim_backup-Keeps env (some j) node token now db =
    elim (Option-cases
      (insert_lease (new_lease env j.id node token now) db.backup_operation_leases)) [
        | inl e ↦ rw (claim_backup, e) (Keeps-refl db)
        | inr (ls, e) ↦
            let held = with_leases ls db in
            rw (claim_backup, e)
              (Sweeps-Keeps db held (after_backup_lease env j.id node token now held).1
                (with_leases-Sweeps ls db) (after_backup_lease-Keeps env j.id node token now held))
      ]

pub claim_backup_operation-Keeps :
    (env : Env) (r : Request) (node token : Text) (now : ℕ) (db : Db)
    → Keeps db (claim_backup_operation env r node token now db).1
unfolding claim_backup_operation mark_expired_backup_leases
claim_backup_operation-Keeps env r node token now db =
    elim (Bool-cases (authenticate_node env r node db)) [
      | inr e ↦ rw (claim_backup_operation, e) (Keeps-refl db)
      | inl e ↦
          let swept = mark_expired_backup_leases node now db in
          let o = next_backup node swept in
          rw (claim_backup_operation, e)
            (Sweeps-Keeps db swept (claim_backup env o node token now swept).1
              (expire_each_backup-Sweeps (expired_backup_leases node now db) now db)
              (claim_backup-Keeps env o node token now swept))
    ]

after_upload_lease-Keeps :
    (env : Env) (job node token : Text) (now : ℕ) (db : Db)
    → Keeps db (after_upload_lease env job node token now db).1
unfolding after_upload_lease
after_upload_lease-Keeps env job node token now db =
    elim (Option-cases (backup_source db job node)) [
      | inl e ↦ rw (after_upload_lease, e) (same_jobs-Keeps db _ refl (λ i kind. refl))
      | inr (j, e) ↦
          elim (Bool-cases
            (not (is_prepared j.state) || not (eqb (length (artifacts_of db job)) 3))) [
              | inl t ↦ rw (after_upload_lease, e, t) (same_jobs-Keeps db _ refl (λ i kind. refl))
              | inr t ↦ rw (after_upload_lease, e, t) (dispatch_upload-Keeps j node now db)
            ]
    ]

claim_upload-Keeps :
    (env : Env) (o : Option BackupJob) (node token : Text) (now : ℕ) (db : Db)
    → Keeps db (claim_upload env o node token now db).1
unfolding claim_upload
claim_upload-Keeps env none node token now db = Keeps-refl db
claim_upload-Keeps env (some j) node token now db =
    elim (Option-cases (insert_lease (new_lease env j.id node token now) db.backup_upload_leases)) [
      | inl e ↦ rw (claim_upload, e) (Keeps-refl db)
      | inr (ls, e) ↦
          let held = with_upload_leases ls db in
          rw (claim_upload, e)
            (Sweeps-Keeps db held (after_upload_lease env j.id node token now held).1
              (with_upload_leases-Sweeps ls db)
              (after_upload_lease-Keeps env j.id node token now held))
    ]

pub claim_backup_upload-Keeps :
    (env : Env) (r : Request) (node token : Text) (now : ℕ) (db : Db)
    → Keeps db (claim_backup_upload env r node token now db).1
unfolding claim_backup_upload mark_expired_upload_leases
claim_backup_upload-Keeps env r node token now db =
    elim (Bool-cases (authenticate_node env r node db)) [
      | inr e ↦ rw (claim_backup_upload, e) (Keeps-refl db)
      | inl e ↦
          let swept = mark_expired_upload_leases node now db in
          let o = next_upload node swept in
          rw (claim_backup_upload, e)
            (Sweeps-Keeps db swept (claim_upload env o node token now swept).1
              (expire_each_upload-Sweeps (expired_upload_leases node now db) now db)
              (claim_upload-Keeps env o node token now swept))
    ]
