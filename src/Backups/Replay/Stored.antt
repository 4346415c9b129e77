-- ===== src/Backups/Replay/Stored.antt =====
-- What the batch of a `prepared` report stores is what the report says, in the order of the kinds.
use dsx_control_plane.Base.{
  ℕ, suc, ◌≡◌, refl, inl, inr, Bool, true, false, some, List, [], ◌∷◌, ◌++◌, ◌∙◌, map, arith,
  Bool-cases,
}
use dsx_control_plane.Base.Lists.{length, select, some_of}
use dsx_control_plane.Text.{Text, ◌==◌, ==_refl}
use dsx_control_plane.Table.{row, row-delete}
use dsx_control_plane.Table.Order.{insert, sort}
use dsx_control_plane.Db.{Db, backup_of}
use dsx_control_plane.Db.States.{same_artifact}
use dsx_control_plane.Db.Rows.{BackupJob, BackupArtifact}
use dsx_control_plane.Http.{Env, Request, authenticate_node}
use dsx_control_plane.Backups.Jobs.{artifacts_of, kind_before}
use dsx_control_plane.Backups.Results.{BackupArtifactInput, prepared}
use dsx_control_plane.Backups.Report.{
  input_before, all_same, is_running, is_artifact, new_artifact, upsert_artifact, upsert_artifacts,
  prepare_backup, prepared_replay_matches, holds_backup_lease,
}
use dsx_control_plane.Backups.Protocol.Complete.{IsComplete, fresh}
use dsx_control_plane.Backups.Protocol.Prepared.{job-prepare_backup}

module _ {ℓ κ} {A : Type ℓ} {B : Type κ} (before : A → A → Bool) (before' : B → B → Bool)
    (f : A → B) (same : (x y : A) → before' (f x) (f y) ≡ before x y) where
  insert-map : (x : A) (ys : List A) → insert before' (f x) (map f ys) ≡ map f (insert before x ys)
  unfolding insert
  insert-map x [] = refl
  insert-map x (y ∷ ys) = elim (Bool-cases (before y x)) [
    | inl t ↦ rw (same y x, t, insert-map x ys) refl
    | inr t ↦ rw (same y x, t) refl
  ]

  sort-map : (xs : List A) → sort before' (map f xs) ≡ map f (sort before xs)
  unfolding sort
  sort-map [] = refl
  sort-map (x ∷ xs) = rw (sort-map xs) (insert-map x (sort before xs))

module _ {ℓ} {A : Type ℓ} (before : A → A → Bool) where
  length-insert : (x : A) (ys : List A) → length (insert before x ys) ≡ suc (length ys)
  unfolding insert
  length-insert x [] = refl
  length-insert x (y ∷ ys) = elim (Bool-cases (before y x)) [
    | inl t ↦ rw (t, length-insert x ys) refl
    | inr t ↦ rw t refl
  ]

  length-sort : (xs : List A) → length (sort before xs) ≡ length xs
  unfolding sort
  length-sort [] = refl
  length-sort (x ∷ xs) = rw (length-insert x (sort before xs), length-sort xs) refl

  sort_none : (xs : List A) → sort before xs ≡ [] → xs ≡ []
  sort_none [] h = refl
  sort_none (x ∷ xs) h = absurd (ground (arith, length-sort (x ∷ xs), h))

length-map {ℓ κ} :
    {A : Type ℓ} {B : Type κ} (f : A → B) (xs : List A) → length (map f xs) ≡ length xs
length-map f [] = refl
length-map f (x ∷ xs) = rw (length-map f xs) refl

module _ (job : Text) (now : ℕ) where
  abbrev of_job : BackupArtifact → Bool
  of_job a = a.backup_job_id == job

  abbrev stored : BackupArtifactInput → BackupArtifact
  stored a = new_artifact job a now

  -- A kind that is not stored yet is put behind what is stored.
  select-upsert_artifact :
      (a : BackupArtifactInput) (xs : List BackupArtifact)
      → some_of (λ x. same_artifact x.artifact_kind a.artifact_kind) (select of_job xs) ≡ false
      → select of_job (upsert_artifact job a now xs) ≡ select of_job xs ++ stored a ∷ []
  unfolding select upsert_artifact is_artifact some_of
  select-upsert_artifact a [] h = rw (==_refl job) refl
  select-upsert_artifact a (x ∷ xs) h = ground (arith, select-upsert_artifact a xs)

  all_same-stored : (xs : List BackupArtifactInput) → all_same (map stored xs) xs ≡ true
  unfolding same_artifact
  all_same-stored [] = refl
  all_same-stored (x ∷ xs) = ground (arith, all_same-stored xs, ==_refl x.sha256)

  select-three :
      (x y z : BackupArtifactInput) (xs : List BackupArtifact)
      → select of_job xs ≡ []
      → fresh [] (x ∷ y ∷ z ∷ []) ≡ true
      → select of_job (upsert_artifacts job (x ∷ y ∷ z ∷ []) now xs) ≡ map stored (x ∷ y ∷ z ∷ [])
  unfolding upsert_artifacts fresh some_of same_artifact
  select-three x y z xs none_yet h =
      let one : select of_job (upsert_artifact job x now xs) ≡ stored x ∷ [] =
        rw (select-upsert_artifact x xs (rw none_yet refl), none_yet) refl in
      let once = upsert_artifact job x now xs in
      let two : select of_job (upsert_artifact job y now once) ≡ stored x ∷ stored y ∷ [] =
        rw (select-upsert_artifact y once (rw one (ground (arith, h))), one) refl in
      let twice = upsert_artifact job y now once in
      rw (select-upsert_artifact z twice (rw two (ground (arith, h))), two) refl

  select-upsert_artifacts :
      (sha : Text) (total : ℕ) (as' : List BackupArtifactInput) (xs : List BackupArtifact)
      → select of_job xs ≡ []
      → IsComplete as' sha total
      → select of_job (upsert_artifacts job as' now xs) ≡ map stored as'
  select-upsert_artifacts sha total [] xs h c = absurd (ground (arith, c.three))
  select-upsert_artifacts sha total (x ∷ []) xs h c = absurd (ground (arith, c.three))
  select-upsert_artifacts sha total (x ∷ y ∷ []) xs h c = absurd (ground (arith, c.three))
  select-upsert_artifacts sha total (x ∷ y ∷ z ∷ []) xs h c = select-three x y z xs h c.distinct
  select-upsert_artifacts sha total (x ∷ y ∷ z ∷ w ∷ rest) xs h c = absurd (ground (arith, c.three))

module _ (as' : List BackupArtifactInput) (sha : Text) (total : ℕ) (node job : Text) (now : ℕ)
    (db : Db) (j : BackupJob) (found : backup_of db job ≡ some j) (run : is_running j.state ≡ true)
    (complete : IsComplete as' sha total) where
  abbrev after : Db
  after = prepare_backup as' sha total node job now db

  artifacts_of-prepared :
      artifacts_of db job ≡ []
      → artifacts_of after job ≡ map (stored job now) (sort input_before as')
  unfolding prepare_backup artifacts_of
  artifacts_of-prepared h =
      let none_yet : select (of_job job now) db.backup_artifacts ≡ [] =
        sort_none kind_before (select (of_job job now) db.backup_artifacts) h in
      rw (select-upsert_artifacts job now sha total as' db.backup_artifacts none_yet complete)
        (sort-map input_before kind_before (stored job now) (λ x y. refl) as')

  pub prepared_replay_matches-after :
      artifacts_of db job ≡ [] → prepared_replay_matches after job (prepared as' sha total) ≡ true
  unfolding prepared_replay_matches
  prepared_replay_matches-after h =
      let same = artifacts_of-prepared h in
      let three : length (map (stored job now) (sort input_before as')) ≡ 3 =
        length-map (stored job now) (sort input_before as')
        ∙ length-sort input_before as'
        ∙ complete.three in
      rw
        (
          job-prepare_backup as' sha total node job now db j found run,
          same,
          three,
          all_same-stored job now (sort input_before as'),
          ==_refl sha,
        )
        (ground arith)

  pub authenticate_node-after :
      (env : Env) (r : Request) (n : Text)
      → authenticate_node env r n after ≡ authenticate_node env r n db
  unfolding prepare_backup authenticate_node row
  authenticate_node-after env r n = refl

  pub holds_backup_lease-after :
      (n hash : Text) (later : ℕ) → holds_backup_lease after job n hash later ≡ false
  unfolding prepare_backup holds_backup_lease
  holds_backup_lease-after n hash later =
      rw (row-delete (λ l. l.job_id) job job db.backup_operation_leases, ==_refl job) refl
