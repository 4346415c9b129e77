-- ===== src/Backups/Protocol/Artifacts.antt =====
-- What the statements on artifacts leave of their sizes and checksums, and what the parser of a
-- `prepared` report guarantees of them.
use dsx_control_plane.Base.{
  ℕ, ◌≡◌, refl, inl, inr, true, false, ◌&&◌, some, List, [], ◌∷◌, map, arith, ◌∙◌, ◌↔◌, Bool-cases,
  if◌then◌else◌,
}
use dsx_control_plane.Base.Lists.{find}
use dsx_control_plane.Text.{Text, ◌==◌, ==_iff, ==_refl}
use dsx_control_plane.Table.{when}
use dsx_control_plane.Db.States.{ArtifactKind, same_artifact}
use dsx_control_plane.Db.Rows.{BackupArtifact}
use dsx_control_plane.Backups.Results.{BackupArtifactInput}
use dsx_control_plane.Backups.Report.{
  is_artifact, new_artifact, replaced_artifact, upsert_artifact, upsert_artifacts,
}
use dsx_control_plane.Backups.Uploads.Inputs.{VerifiedArtifact}
use dsx_control_plane.Backups.Uploads.Report.{is_returned, stored_at, store_each}
use dsx_control_plane.Backups.Protocol.{Content, content}

same_artifact_iff : (a b : ArtifactKind) → (same_artifact a b ≡ true) ↔ (a ≡ b)
unfolding same_artifact
same_artifact_iff a b = ground arith

abbrev pub put_content : Text → BackupArtifactInput → Text → ArtifactKind → Content → Content
put_content job a id kind o =
    if job == id && same_artifact a.artifact_kind kind
    then some (some a.size_bytes, some a.sha256)
    else o

is_artifact_self :
    (job : Text) (k : ArtifactKind) (x : BackupArtifact)
    → x.backup_job_id ≡ job
    → x.artifact_kind ≡ k
    → is_artifact job k x ≡ true
unfolding is_artifact
is_artifact_self job k x h l = rw (h, l) (ground (arith, ==_refl job, same_artifact_iff k k))

is_artifact-replaced :
    (id : Text) (kind : ArtifactKind) (a : BackupArtifactInput) (now : ℕ) (x : BackupArtifact)
    → is_artifact id kind (replaced_artifact a now x) ≡ is_artifact id kind x
unfolding is_artifact
is_artifact-replaced id kind a now x = refl

module _ (job id : Text) (kind : ArtifactKind) (now : ℕ) where
  is_artifact-true :
      (k : ArtifactKind) (x : BackupArtifact)
      → is_artifact job k x ≡ true
      → is_artifact id kind x ≡ (job == id && same_artifact k kind)
  unfolding is_artifact
  is_artifact-true k x h =
      let same : x.backup_job_id ≡ job = (==_iff x.backup_job_id job).0 (ground arith) in
      let of_kind : x.artifact_kind ≡ k = (same_artifact_iff x.artifact_kind k).0 (ground arith) in
      rw (same, of_kind) refl

  is_artifact-false :
      (k : ArtifactKind) (x : BackupArtifact)
      → is_artifact job k x ≡ false
      → is_artifact id kind x ≡ true
      → (job == id && same_artifact k kind) ≡ false
  unfolding is_artifact
  is_artifact-false k x h t =
      let same : x.backup_job_id ≡ id = (==_iff x.backup_job_id id).0 (ground arith) in
      let of_kind : x.artifact_kind ≡ kind =
        (same_artifact_iff x.artifact_kind kind).0 (ground arith) in
      elim (Bool-cases (job == id && same_artifact k kind)) [
        | inr f ↦ f
        | inl e ↦
            let j : job ≡ id = (==_iff job id).0 (ground arith) in
            let l : k ≡ kind = (same_artifact_iff k kind).0 (ground arith) in
            absurd (ground (arith, ==_iff x.backup_job_id job, same_artifact_iff x.artifact_kind k))
      ]

  content-upsert_artifact :
      (a : BackupArtifactInput) (xs : List BackupArtifact)
      → content (find (is_artifact id kind) (upsert_artifact job a now xs))
        ≡ put_content job a id kind (content (find (is_artifact id kind) xs))
  unfolding find upsert_artifact
  content-upsert_artifact a [] =
      rw
        (is_artifact-true a.artifact_kind (new_artifact job a now)
          (is_artifact_self job a.artifact_kind (new_artifact job a now) refl refl))
        (elim (Bool-cases (job == id && same_artifact a.artifact_kind kind)) [
          | inl t ↦ rw t refl
          | inr t ↦ rw t refl
        ])
  content-upsert_artifact a (x ∷ xs) = elim (Bool-cases (is_artifact job a.artifact_kind x)) [
    | inl t ↦
        rw (t, is_artifact-replaced id kind a now x, is_artifact-true a.artifact_kind x t)
          (elim (Bool-cases (job == id && same_artifact a.artifact_kind kind)) [
            | inl c ↦ rw c refl
            | inr c ↦ rw c refl
          ])
    | inr t ↦ elim (Bool-cases (is_artifact id kind x)) [
      | inl p ↦ rw (t, p, is_artifact-false a.artifact_kind x t p) refl
      | inr p ↦ rw (t, p) (content-upsert_artifact a xs)
    ]
  ]

  abbrev pub put_contents : List BackupArtifactInput → Content → Content
  put_contents [] o = o
  put_contents (a ∷ rest) o = put_contents rest (put_content job a id kind o)

  pub content-upsert_artifacts :
      (as' : List BackupArtifactInput) (xs : List BackupArtifact)
      → content (find (is_artifact id kind) (upsert_artifacts job as' now xs))
        ≡ put_contents as' (content (find (is_artifact id kind) xs))
  unfolding upsert_artifacts
  content-upsert_artifacts [] xs = refl
  content-upsert_artifacts (a ∷ rest) xs =
      rw
        (content-upsert_artifacts rest (upsert_artifact job a now xs), content-upsert_artifact a xs)
        refl

  content-stored_at :
      (a : VerifiedArtifact) (xs : List BackupArtifact)
      → content (find (is_artifact id kind) (map (when (is_returned job a) (stored_at a now)) xs))
        ≡ content (find (is_artifact id kind) xs)
  unfolding find is_artifact
  content-stored_at a [] = refl
  content-stored_at a (x ∷ xs) = ground (arith, content-stored_at a xs)

  pub content-store_each :
      (vs : List VerifiedArtifact) (xs : List BackupArtifact)
      → content (find (is_artifact id kind) (store_each job vs now xs))
        ≡ content (find (is_artifact id kind) xs)
  unfolding store_each
  content-store_each [] xs = refl
  content-store_each (a ∷ rest) xs =
      content-store_each rest (map (when (is_returned job a) (stored_at a now)) xs)
      ∙ content-stored_at a xs
