-- ===== src/Backups/Protocol/Prepared.antt =====
-- What the batch of a `prepared` report keeps.
use dsx_control_plane.Base.{
  ℕ, ◌≡◌, refl, inl, inr, true, false, some, List, [], ◌∷◌, arith, ◌∙◌, sym, Bool-cases,
}
use dsx_control_plane.Base.Lists.{some_of}
use dsx_control_plane.Text.{Text, ◌==◌, ==_iff, ==_refl}
use dsx_control_plane.Table.{row-update}
use dsx_control_plane.Db.{Db, backup_of}
use dsx_control_plane.Db.States.{
  same_backup, ArtifactKind, database_dump, filestore_archive, manifest,
}
use dsx_control_plane.Db.Rows.{BackupJob}
use dsx_control_plane.Provisioning.Effects.{set_row}
use dsx_control_plane.Backups.Results.{BackupArtifactInput}
use dsx_control_plane.Backups.Report.{is_running, prepared_backup, prepare_backup}
use dsx_control_plane.Backups.Protocol.{
  Content, content_of, successors, follows, sealed, IsSealedAt,
}
use dsx_control_plane.Backups.Protocol.Artifacts.{put_contents, content-upsert_artifacts}
use dsx_control_plane.Backups.Protocol.Complete.{IsComplete, IsComplete-whole}
use dsx_control_plane.Backups.Protocol.Batches.{Keeps, follows_refl}

put_contents-other :
    (job i : Text) (kind : ArtifactKind) (now : ℕ) (as' : List BackupArtifactInput) (o : Content)
    → (job == i) ≡ false
    → put_contents job i kind now as' o ≡ o
put_contents-other job i kind now [] o h = refl
put_contents-other job i kind now (a ∷ rest) o h = rw h (put_contents-other job i kind now rest o h)

module _ (as' : List BackupArtifactInput) (sha : Text) (total : ℕ) (node job : Text) (now : ℕ)
    (db : Db) (j : BackupJob) (found : backup_of db job ≡ some j)
    (run : is_running j.state ≡ true) where
  abbrev after : Db
  after = prepare_backup as' sha total node job now db

  backup-prepare_backup :
      (i : Text)
      → backup_of after i
        ≡ set_row job i (λ x. is_running x.state) (prepared_backup sha total now) (backup_of db i)
  unfolding prepare_backup
  backup-prepare_backup i =
      row-update (λ x. x.id) (λ x. is_running x.state) (prepared_backup sha total now) (λ x. refl) i
        job db.backup_jobs

  content-prepare_backup :
      (i : Text) (kind : ArtifactKind)
      → content_of after i kind ≡ put_contents job i kind now as' (content_of db i kind)
  unfolding prepare_backup
  content-prepare_backup i kind = content-upsert_artifacts job i kind now as' db.backup_artifacts

  pub job-prepare_backup : backup_of after job ≡ some (prepared_backup sha total now j)
  job-prepare_backup = rw (backup-prepare_backup job, found, ==_refl job, run) refl

  follows-prepared : follows (some j) (some (prepared_backup sha total now j)) ≡ true
  unfolding follows successors some_of same_backup
  follows-prepared = ground (arith, run)

  prepared-sealed : IsComplete as' sha total → IsSealedAt after job
  unfolding sealed
  prepared-sealed complete =
      rw
        (
          job-prepare_backup,
          content-prepare_backup job database_dump,
          content-prepare_backup job filestore_archive,
          content-prepare_backup job manifest,
        )
        (IsComplete-whole job sha total (prepared_backup sha total now j) as' complete refl refl now
          (content_of db job database_dump) (content_of db job filestore_archive)
          (content_of db job manifest))

  prepare-follows : (i : Text) → follows (backup_of db i) (backup_of after i) ≡ true
  prepare-follows i = elim (Bool-cases (job == i)) [
    | inr e ↦ rw (backup-prepare_backup i, e) (follows_refl (backup_of db i))
    | inl e ↦
        let same : job ≡ i = (==_iff job i).0 e in
        cc (same, found, job-prepare_backup, follows-prepared)
  ]

  prepare-sealed : IsComplete as' sha total → (i : Text) → IsSealedAt db i → IsSealedAt after i
  prepare-sealed complete i s = elim (Bool-cases (job == i)) [
    | inr e ↦
        let unchanged = λ (kind : ArtifactKind).
          content-prepare_backup i kind
          ∙ put_contents-other job i kind now as' (content_of db i kind) e in
        rw
          (
            backup-prepare_backup i,
            e,
            unchanged database_dump,
            unchanged filestore_archive,
            unchanged manifest,
          )
          s
    | inl e ↦ (let same : i ≡ job = sym ((==_iff job i).0 e) in rw same (prepared-sealed complete))
  ]

  pub prepare_backup-Keeps : IsComplete as' sha total → Keeps db after
  prepare_backup-Keeps complete = record {
    follow = prepare-follows;
    seal = prepare-sealed complete;
  }
