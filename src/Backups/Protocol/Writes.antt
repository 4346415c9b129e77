-- ===== src/Backups/Protocol/Writes.antt =====
-- Each batch of the routes of backups keeps what the protocol promises.
use dsx_control_plane.Base.{
  ℕ, ◌≡◌, refl, inl, inr, Bool, true, false, Option, none, some, List, arith, ◌∙◌, Bool-cases,
  if◌then◌else◌,
}
use dsx_control_plane.Base.Lists.{some_of}
use dsx_control_plane.Text.{Text, ◌==◌}
use dsx_control_plane.Table.{row, row-update, row-append, or_row}
use dsx_control_plane.Db.{Db, backup_of}
use dsx_control_plane.Db.States.{
  BackupState, same_backup, database_dump, filestore_archive, manifest,
}
use dsx_control_plane.Db.Rows.{BackupJob}
use dsx_control_plane.Provisioning.Effects.{set_row}
use dsx_control_plane.Backups.Jobs.{BackupPlan, new_backup, insert_backup, add_backup}
use dsx_control_plane.Backups.Operations.{
  is_at_work, expired_backup, expire_backup, dispatched_backup, is_queued, dispatch_backup,
}
use dsx_control_plane.Backups.Report.{
  is_dispatched, running_backup, start_backup, failed_backup, fail_backup,
}
use dsx_control_plane.Backups.Uploads.{state_is_prepared, cleared_backup, dispatch_upload}
use dsx_control_plane.Backups.Uploads.Inputs.{VerifiedArtifact}
use dsx_control_plane.Backups.Uploads.Report.{
  coded_backup, fail_upload, verified_backup, verify_upload,
}
use dsx_control_plane.Backups.Protocol.{Content, content_of, is_whole, successors, follows, sealed}
use dsx_control_plane.Backups.Protocol.Artifacts.{content-store_each}
use dsx_control_plane.Backups.Protocol.Batches.{
  Keeps, Harmless, follows_refl, update-Keeps, Sweeps, IsSwept,
}

dispatched_backup-Harmless : (now : ℕ) → Harmless is_queued (dispatched_backup now)
unfolding follows sealed successors some_of same_backup
dispatched_backup-Harmless now = record {
  moves = λ x t. ground arith;
  keeps = λ x d a m t s. ground arith;
}

running_backup-Harmless : (now : ℕ) → Harmless (λ x. is_dispatched x.state) (running_backup now)
unfolding follows sealed successors some_of same_backup
running_backup-Harmless now = record {
  moves = λ x t. ground arith;
  keeps = λ x d a m t s. ground arith;
}

failed_backup-Harmless :
    (code : Text) (now : ℕ) → Harmless (λ x. is_at_work x.state) (failed_backup code now)
unfolding follows sealed successors some_of same_backup is_at_work
failed_backup-Harmless code now = record {
  moves = λ x t. ground arith;
  keeps = λ x d a m t s. ground arith;
}

cleared_backup-Harmless : (now : ℕ) → Harmless state_is_prepared (cleared_backup now)
unfolding follows sealed same_backup
cleared_backup-Harmless now = record { moves = λ x t. ground arith; keeps = λ x d a m t s. s }

coded_backup-Harmless : (code : Text) (now : ℕ) → Harmless state_is_prepared (coded_backup code now)
unfolding follows sealed same_backup
coded_backup-Harmless code now = record { moves = λ x t. ground arith; keeps = λ x d a m t s. s }

is_whole-verified :
    (now : ℕ) (x : BackupJob) (d a m : Content)
    → is_whole (verified_backup now x) d a m ≡ is_whole x d a m
is_whole-verified now x (some (some p, some s)) (some (some q, some t)) (some (some r, some u)) =
    refl
is_whole-verified now x d a m = refl

sealed-prepared :
    (x : BackupJob) (d a m : Content)
    → state_is_prepared x ≡ true
    → sealed (some x) d a m ≡ true
    → is_whole x d a m ≡ true
unfolding sealed
sealed-prepared x d a m t s = elim (Bool-cases (is_whole x d a m)) [
  | inl e ↦ e
  | inr e ↦ absurd (ground (arith, e))
]

verified_backup-Harmless : (now : ℕ) → Harmless state_is_prepared (verified_backup now)
unfolding follows sealed successors some_of same_backup
verified_backup-Harmless now = record {
  moves = λ x t. ground arith;
  keeps = λ x d a m t s. is_whole-verified now x d a m ∙ sealed-prepared x d a m t s;
}

pub dispatch_backup-Keeps :
    (j : BackupJob) (node : Text) (now : ℕ) (db : Db) → Keeps db (dispatch_backup j node now db)
unfolding dispatch_backup
dispatch_backup-Keeps j node now db =
    update-Keeps j.id is_queued (dispatched_backup now) db (dispatch_backup j node now db)
      (λ x. refl) (dispatched_backup-Harmless now) refl (λ i kind. refl)

pub start_backup-Keeps :
    (job : Text) (until now : ℕ) (db : Db) → Keeps db (start_backup job until now db)
unfolding start_backup
start_backup-Keeps job until now db =
    update-Keeps job (λ x. is_dispatched x.state) (running_backup now) db
      (start_backup job until now db) (λ x. refl) (running_backup-Harmless now) refl
      (λ i kind. refl)

pub fail_backup-Keeps :
    (code : Text) (from : BackupState) (node job : Text) (now : ℕ) (db : Db)
    → Keeps db (fail_backup code from node job now db)
unfolding fail_backup
fail_backup-Keeps code from node job now db =
    update-Keeps job (λ x. is_at_work x.state) (failed_backup code now) db
      (fail_backup code from node job now db) (λ x. refl) (failed_backup-Harmless code now) refl
      (λ i kind. refl)

pub dispatch_upload-Keeps :
    (j : BackupJob) (node : Text) (now : ℕ) (db : Db) → Keeps db (dispatch_upload j node now db)
unfolding dispatch_upload
dispatch_upload-Keeps j node now db =
    update-Keeps j.id state_is_prepared (cleared_backup now) db (dispatch_upload j node now db)
      (λ x. refl) (cleared_backup-Harmless now) refl (λ i kind. refl)

pub fail_upload-Keeps :
    (code job : Text) (now : ℕ) (db : Db) → Keeps db (fail_upload code job now db)
unfolding fail_upload
fail_upload-Keeps code job now db =
    update-Keeps job state_is_prepared (coded_backup code now) db (fail_upload code job now db)
      (λ x. refl) (coded_backup-Harmless code now) refl (λ i kind. refl)

pub verify_upload-Keeps :
    (returned : List VerifiedArtifact) (node job : Text) (now : ℕ) (db : Db)
    → Keeps db (verify_upload returned node job now db)
unfolding verify_upload
verify_upload-Keeps returned node job now db =
    update-Keeps job state_is_prepared (verified_backup now) db
      (verify_upload returned node job now db) (λ x. refl) (verified_backup-Harmless now) refl
      (λ i kind. content-store_each job i kind now returned db.backup_artifacts)

module _ (db : Db) (job : Text) (now : ℕ) where
  lapsed-expired :
      (i : Text) (o : Option BackupJob)
      → IsSwept o (set_row job i (λ x. is_at_work x.state) (expired_backup now) o)
  unfolding is_at_work same_backup
  lapsed-expired i none = elim (Bool-cases (job == i)) [
    | inl e ↦ rw e (inl refl)
    | inr e ↦ rw e (inl refl)
  ]
  lapsed-expired i (some x) = elim (Bool-cases (job == i)) [
    | inr e ↦ rw e (inl refl)
    | inl e ↦ elim (Bool-cases (is_at_work x.state)) [
      | inl t ↦ rw (e, t) (inr (ground arith))
      | inr t ↦ rw (e, t) (inl refl)
    ]
  ]

  pub expire_backup-Sweeps : (j : BackupJob) → Sweeps db (expire_backup j job now db)
  unfolding expire_backup row
  expire_backup-Sweeps j = record {
    jobs = λ i.
        rw
          (row-update (λ x. x.id) (λ x. is_at_work x.state) (expired_backup now) (λ x. refl) i job
            db.backup_jobs)
          (lapsed-expired i (backup_of db i));
    contents = λ i kind. refl;
  }

backup-add_backup :
    (p : BackupPlan) (id : Text) (now : ℕ) (db db' : Db) (i : Text)
    → add_backup p id now db ≡ some db'
    → (backup_of db' i
        ≡ or_row (backup_of db i) (if id == i then some (new_backup p id now) else none))
      × (db'.backup_artifacts ≡ db.backup_artifacts)
unfolding add_backup insert_backup
backup-add_backup p id now db db' i h =
    (ground (arith, row-append (λ x. x.id) i db.backup_jobs (new_backup p id now)), ground arith)

module _ (p : BackupPlan) (id : Text) (now : ℕ) where
  abbrev added : Bool → Option BackupJob
  added b = if b then some (new_backup p id now) else none

  follows-added : (o : Option BackupJob) (b : Bool) → follows o (or_row o (added b)) ≡ true
  unfolding follows same_backup
  follows-added none true = refl
  follows-added none false = refl
  follows-added (some x) b = follows_refl (some x)

  sealed-added :
      (o : Option BackupJob) (b : Bool) (d a m : Content)
      → sealed o d a m ≡ true
      → sealed (or_row o (added b)) d a m ≡ true
  unfolding sealed
  sealed-added none true d a m s = refl
  sealed-added none false d a m s = refl
  sealed-added (some x) b d a m s = s

pub add_backup-Keeps :
    (p : BackupPlan) (id : Text) (now : ℕ) (db db' : Db)
    → add_backup p id now db ≡ some db'
    → Keeps db db'
add_backup-Keeps p id now db db' h = record {
  follow = λ i.
      rw (backup-add_backup p id now db db' i h).0
        (follows-added p id now (backup_of db i) (id == i));
  seal = λ i s.
      let (jobs, artifacts) = backup-add_backup p id now db db' i h in
      rw (jobs, artifacts)
        (sealed-added p id now (backup_of db i) (id == i) (content_of db i database_dump)
          (content_of db i filestore_archive) (content_of db i manifest) s);
}
