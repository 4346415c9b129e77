-- ===== src/Backups/Protocol/Batches.antt =====
-- What the batches of deploy/cloudflare/src/backups.ts, backupOperations.ts and
-- backupUploadOperations.ts leave of one backup and of its artifacts.
use dsx_control_plane.Base.{
  ◌≡◌, ◌⊎◌, ◌&&◌, refl, inl, inr, Bool, true, false, Option, none, some, arith, ◌∙◌, Bool-cases,
}
use dsx_control_plane.Base.Lists.{some_of}
use dsx_control_plane.Text.{Text, ◌==◌}
use dsx_control_plane.Table.{row, update, row-update}
use dsx_control_plane.Db.{Db, backup_of}
use dsx_control_plane.Db.States.{
  failed, same_backup, ArtifactKind, database_dump, filestore_archive, manifest,
}
use dsx_control_plane.Db.Rows.{BackupJob}
use dsx_control_plane.Provisioning.Effects.{set_row}
use dsx_control_plane.Backups.Operations.{is_at_work}
use dsx_control_plane.Backups.Protocol.{
  Content, content_of, successors, follows, sealed, IsSealedAt,
}

pub record Keeps (db db' : Db) : Type 0 where
  pub follow : (i : Text) → follows (backup_of db i) (backup_of db' i) ≡ true
  pub seal : (i : Text) → IsSealedAt db i → IsSealedAt db' i

pub follows_refl : (o : Option BackupJob) → follows o o ≡ true
unfolding follows same_backup
follows_refl none = refl
follows_refl (some j) = ground arith

pub follows-job : (j j' : BackupJob) → j'.state ≡ j.state → follows (some j) (some j') ≡ true
unfolding follows same_backup
follows-job j j' h = rw h (ground arith)

abbrev pub SameContent : Db → Db → Type 0
SameContent db db' = (i : Text) (kind : ArtifactKind) → content_of db' i kind ≡ content_of db i kind

pub same_jobs-Keeps :
    (db db' : Db) → db'.backup_jobs ≡ db.backup_jobs → SameContent db db' → Keeps db db'
unfolding row
same_jobs-Keeps db db' jobs same = record {
  follow = λ i. rw jobs (follows_refl (backup_of db i));
  seal = λ i s. rw (jobs, same i database_dump, same i filestore_archive, same i manifest) s;
}

pub Keeps-refl : (db : Db) → Keeps db db
Keeps-refl db = same_jobs-Keeps db db refl (λ i kind. refl)

-- What an update of a job that passes the test may do to it.
pub record Harmless (cond : BackupJob → Bool) (f : BackupJob → BackupJob) : Type 0 where
  pub moves : (x : BackupJob) → cond x ≡ true → follows (some x) (some (f x)) ≡ true
  pub keeps :
      (x : BackupJob) (d a m : Content)
      → cond x ≡ true
      → sealed (some x) d a m ≡ true
      → sealed (some (f x)) d a m ≡ true

module _ (cond : BackupJob → Bool) (f : BackupJob → BackupJob) (h : Harmless cond f)
    (k i : Text) where
  follows-set_row : (o : Option BackupJob) → follows o (set_row k i cond f o) ≡ true
  follows-set_row none = elim (Bool-cases (k == i)) [
    | inl e ↦ rw e (follows_refl none)
    | inr e ↦ rw e (follows_refl none)
  ]
  follows-set_row (some x) = elim (Bool-cases (k == i)) [
    | inr e ↦ rw e (follows_refl (some x))
    | inl e ↦ elim (Bool-cases (cond x)) [
      | inl t ↦ rw (e, t) (h.moves x t)
      | inr t ↦ rw (e, t) (follows_refl (some x))
    ]
  ]

  sealed-set_row :
      (o : Option BackupJob) (d a m : Content)
      → sealed o d a m ≡ true
      → sealed (set_row k i cond f o) d a m ≡ true
  sealed-set_row none d a m s = elim (Bool-cases (k == i)) [ inl e ↦ rw e s | inr e ↦ rw e s ]
  sealed-set_row (some x) d a m s = elim (Bool-cases (k == i)) [
    | inr e ↦ rw e s
    | inl e ↦ elim (Bool-cases (cond x)) [
      | inl t ↦ rw (e, t) (h.keeps x d a m t s)
      | inr t ↦ rw (e, t) s
    ]
  ]

pub update-Keeps :
    (k : Text) (cond : BackupJob → Bool) (f : BackupJob → BackupJob) (db db' : Db)
    → ((x : BackupJob) → (f x).id ≡ x.id)
    → Harmless cond f
    → db'.backup_jobs ≡ update (λ x. x.id) k cond f db.backup_jobs
    → SameContent db db'
    → Keeps db db'
unfolding row
update-Keeps k cond f db db' same_id h jobs same = record {
  follow = λ i.
      rw (jobs, row-update (λ x. x.id) cond f same_id i k db.backup_jobs)
        (follows-set_row cond f h k i (backup_of db i));
  seal = λ i s.
      rw
        (
          jobs,
          row-update (λ x. x.id) cond f same_id i k db.backup_jobs,
          same i database_dump,
          same i filestore_archive,
          same i manifest,
        )
        (sealed-set_row cond f h k i (backup_of db i) (content_of db i database_dump)
          (content_of db i filestore_archive) (content_of db i manifest) s);
}

-- A job that was at work has failed.
abbrev pub lapsed : Option BackupJob → Option BackupJob → Bool
lapsed (some x) (some y) = is_at_work x.state && same_backup y.state failed
lapsed _ _ = false

-- What a sweep may do.
abbrev pub IsSwept : Option BackupJob → Option BackupJob → Type 0
IsSwept o o' = (o' ≡ o) ⊎ (lapsed o o' ≡ true)

pub record Sweeps (db db' : Db) : Type 0 where
  pub jobs : (i : Text) → IsSwept (backup_of db i) (backup_of db' i)
  pub contents : SameContent db db'

lapsed-failed :
    (o o' o'' : Option BackupJob) → lapsed o o' ≡ true → follows o' o'' ≡ true → lapsed o o'' ≡ true
unfolding follows successors some_of same_backup is_at_work
lapsed-failed none o' o'' h k = absurd (ground arith)
lapsed-failed (some x) none o'' h k = absurd (ground arith)
lapsed-failed (some x) (some y) none h k = absurd (ground arith)
lapsed-failed (some x) (some y) (some z) h k = ground arith

lapsed-follows : (o o' : Option BackupJob) → lapsed o o' ≡ true → follows o o' ≡ true
unfolding follows successors some_of same_backup is_at_work
lapsed-follows none o' h = absurd (ground arith)
lapsed-follows (some x) none h = absurd (ground arith)
lapsed-follows (some x) (some y) h = ground arith

lapsed-sealed :
    (o o' : Option BackupJob) (d a m : Content) → lapsed o o' ≡ true → sealed o' d a m ≡ true
unfolding sealed same_backup is_at_work
lapsed-sealed none o' d a m h = absurd (ground arith)
lapsed-sealed (some x) none d a m h = absurd (ground arith)
lapsed-sealed (some x) (some y) d a m h = ground arith

pub Sweeps-refl : (db : Db) → Sweeps db db
Sweeps-refl db = record { jobs = λ i. inl refl; contents = λ i kind. refl }

IsSwept-trans : (o o' o'' : Option BackupJob) → IsSwept o o' → IsSwept o' o'' → IsSwept o o''
IsSwept-trans o o' o'' (inl h) (inl k) = inl (k ∙ h)
IsSwept-trans o o' o'' (inl h) (inr k) = inr (cc (h, k))
IsSwept-trans o o' o'' (inr h) (inl k) = inr (rw k h)
IsSwept-trans o o' o'' (inr h) (inr k) = inr (lapsed-failed o o' o'' h (lapsed-follows o' o'' k))

pub Sweeps-trans : (db db' db'' : Db) → Sweeps db db' → Sweeps db' db'' → Sweeps db db''
Sweeps-trans db db' db'' s t = record {
  jobs = λ i.
      IsSwept-trans (backup_of db i) (backup_of db' i) (backup_of db'' i) (s.jobs i) (t.jobs i);
  contents = λ i kind. t.contents i kind ∙ s.contents i kind;
}

swept-follows :
    (o o' o'' : Option BackupJob) → IsSwept o o' → follows o' o'' ≡ true → follows o o'' ≡ true
swept-follows o o' o'' (inl h) k = ground (arith, h, k)
swept-follows o o' o'' (inr h) k = lapsed-follows o o'' (lapsed-failed o o' o'' h k)

swept-sealed :
    (o o' : Option BackupJob) (d a m : Content)
    → IsSwept o o'
    → sealed o d a m ≡ true
    → sealed o' d a m ≡ true
swept-sealed o o' d a m (inl h) k = rw h k
swept-sealed o o' d a m (inr h) k = lapsed-sealed o o' d a m h

pub Sweeps-Keeps : (db db' db'' : Db) → Sweeps db db' → Keeps db' db'' → Keeps db db''
Sweeps-Keeps db db' db'' s k = record {
  follow = λ i.
      swept-follows (backup_of db i) (backup_of db' i) (backup_of db'' i) (s.jobs i) (k.follow i);
  seal = λ i sealed_before. k.seal i (
      rw (s.contents i database_dump, s.contents i filestore_archive, s.contents i manifest)
        (swept-sealed (backup_of db i) (backup_of db' i) (content_of db i database_dump)
          (content_of db i filestore_archive) (content_of db i manifest) (s.jobs i) sealed_before));
}
