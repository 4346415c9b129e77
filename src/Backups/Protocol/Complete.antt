-- ===== src/Backups/Protocol/Complete.antt =====
-- What the parser of a `prepared` report guarantees: three artifacts of different kinds, whose sizes
-- add up to the total, and whose manifest has the checksum that is named.
use dsx_control_plane.Base.{
  ℕ, ◌+◌, ◌≡◌, inl, inr, Bool, true, false, not, ◌&&◌, Option, some, List, [], ◌∷◌, arith,
  Option-cases, Result-cases, ok,
}
use dsx_control_plane.Base.Lists.{find, length, some_of}
use dsx_control_plane.Text.{Text, text, ==_iff, ==_refl}
use dsx_control_plane.Json.{Json, Fields, get}
use dsx_control_plane.Db.States.{
  ArtifactKind, database_dump, filestore_archive, manifest, same_artifact,
}
use dsx_control_plane.Db.Rows.{BackupJob}
use dsx_control_plane.Backups.Results.{
  BackupArtifactInput, prepared, total_size, is_manifest, has_checksum, three_items, parse_artifact,
  parse_each_artifact, parse_artifacts, parse_prepared,
}
use dsx_control_plane.Backups.Protocol.{Content, is_whole}
use dsx_control_plane.Backups.Protocol.Artifacts.{put_contents}

-- No kind is among those seen, or twice in the list.
unfoldable pub fresh : List ArtifactKind → List BackupArtifactInput → Bool
unfolding some_of same_artifact
fresh seen [] = true
fresh seen (a ∷ rest) =
    not (some_of (same_artifact a.artifact_kind) seen) && fresh (a.artifact_kind ∷ seen) rest

parse_artifact-fresh :
    (raw : Json) (seen : List ArtifactKind) (a : BackupArtifactInput)
    → parse_artifact raw seen ≡ ok a
    → some_of (same_artifact a.artifact_kind) seen ≡ false
unfolding parse_artifact
parse_artifact-fresh raw seen a h = ground arith

parse_each_artifact-fresh :
    (vs : List Json) (seen : List ArtifactKind) (as' : List BackupArtifactInput)
    → parse_each_artifact vs seen ≡ ok as'
    → fresh seen as' ≡ true
unfolding parse_each_artifact fresh
parse_each_artifact-fresh [] seen as' h = ground arith
parse_each_artifact-fresh (raw ∷ rest) seen as' h = elim (Result-cases (parse_artifact raw seen)) [
  | inl (e, k) ↦ absurd (ground arith)
  | inr (a, k) ↦ elim (Result-cases (parse_each_artifact rest (a.artifact_kind ∷ seen))) [
    | inl (e, l) ↦ absurd (ground arith)
    | inr (later, l) ↦ ground (
      arith,
      parse_artifact-fresh raw seen a k,
      parse_each_artifact-fresh rest (a.artifact_kind ∷ seen) later l,
    )
  ]
]

-- What the batch of a `prepared` report relies on.
pub record IsComplete (as' : List BackupArtifactInput) (sha : Text) (total : ℕ) : Type 0 where
  pub distinct : fresh [] as' ≡ true
  pub three : length as' ≡ 3
  pub sum : total_size as' ≡ total
  pub checksum : has_checksum sha (find is_manifest as') ≡ true

parse_artifacts-fresh :
    (v : Option Json) (as' : List BackupArtifactInput)
    → parse_artifacts v ≡ ok as'
    → (fresh [] as' ≡ true) × (length as' ≡ 3)
unfolding parse_artifacts
parse_artifacts-fresh v as' h = elim (Option-cases (three_items v)) [
  | inl e ↦ absurd (ground arith)
  | inr (vs, e) ↦ elim (Result-cases (parse_each_artifact vs [])) [
    | inl (f, k) ↦ absurd (ground arith)
    | inr (parsed, k) ↦ (ground (arith, parse_each_artifact-fresh vs [] parsed k), ground arith)
  ]
]

parse_prepared-parts :
    (input : Fields) (as' : List BackupArtifactInput) (sha : Text) (total : ℕ)
    → parse_prepared input ≡ ok (prepared as' sha total)
    → (parse_artifacts (get input (text "artifacts")) ≡ ok as')
      × (total_size as' ≡ total)
      × (has_checksum sha (find is_manifest as') ≡ true)
unfolding parse_prepared
parse_prepared-parts input as' sha total h =
    elim (Result-cases (parse_artifacts (get input (text "artifacts")))) [
      | inl (e, k) ↦ absurd (ground arith)
      | inr (parsed, k) ↦ (ground arith, ground arith, ground arith)
    ]

pub parse_prepared-IsComplete :
    (input : Fields) (as' : List BackupArtifactInput) (sha : Text) (total : ℕ)
    → parse_prepared input ≡ ok (prepared as' sha total)
    → IsComplete as' sha total
parse_prepared-IsComplete input as' sha total h =
    let (parsed, sum, checksum) = parse_prepared-parts input as' sha total h in
    let (distinct, three) = parse_artifacts-fresh (get input (text "artifacts")) as' parsed in
    record { distinct = distinct; three = three; sum = sum; checksum = checksum }

abbrev piece : ArtifactKind → ℕ → Text → BackupArtifactInput
piece kind size sha = record { artifact_kind = kind; size_bytes = size; sha256 = sha }

-- The three kinds in some order.
unfoldable any_order : ArtifactKind → ArtifactKind → ArtifactKind → Bool
any_order database_dump filestore_archive manifest = true
any_order database_dump manifest filestore_archive = true
any_order filestore_archive database_dump manifest = true
any_order filestore_archive manifest database_dump = true
any_order manifest database_dump filestore_archive = true
any_order manifest filestore_archive database_dump = true
any_order _ _ _ = false

fresh-any_order :
    (x y z : BackupArtifactInput)
    → fresh [] (x ∷ y ∷ z ∷ []) ≡ true
    → any_order x.artifact_kind y.artifact_kind z.artifact_kind ≡ true
unfolding fresh some_of same_artifact any_order
fresh-any_order x y z h = ground (arith, h)

-- What a batch that stores three artifacts and their totals leaves.
module _ (job sha : Text) (j : BackupJob) (a b c : ℕ) (s t u : Text) (o p q : Content) where
  abbrev Whole : ArtifactKind → ArtifactKind → ArtifactKind → Type 0
  Whole k l m =
      any_order k l m ≡ true
      → j.total_size_bytes ≡ some (a + b + c)
      → j.manifest_sha256 ≡ some sha
      → has_checksum sha (find is_manifest (piece k a s ∷ piece l b t ∷ piece m c u ∷ [])) ≡ true
      → is_whole j
          (put_contents job job database_dump 0 (piece k a s ∷ piece l b t ∷ piece m c u ∷ []) o)
          (put_contents job job filestore_archive 0 (piece k a s ∷ piece l b t ∷ piece m c u ∷ [])
            p)
          (put_contents job job manifest 0 (piece k a s ∷ piece l b t ∷ piece m c u ∷ []) q)
        ≡ true

  Whole-pieces : (k l m : ArtifactKind) → Whole k l m
  unfolding any_order same_artifact find
  Whole-pieces database_dump filestore_archive manifest _ total sum checksum =
      rw (total, sum, ==_refl job) (ground (arith, checksum, ==_iff u sha, ==_refl sha))
  Whole-pieces database_dump manifest filestore_archive _ total sum checksum =
      rw (total, sum, ==_refl job) (ground (arith, checksum, ==_iff t sha, ==_refl sha))
  Whole-pieces filestore_archive database_dump manifest _ total sum checksum =
      rw (total, sum, ==_refl job) (ground (arith, checksum, ==_iff u sha, ==_refl sha))
  Whole-pieces filestore_archive manifest database_dump _ total sum checksum =
      rw (total, sum, ==_refl job) (ground (arith, checksum, ==_iff t sha, ==_refl sha))
  Whole-pieces manifest database_dump filestore_archive _ total sum checksum =
      rw (total, sum, ==_refl job) (ground (arith, checksum, ==_iff s sha, ==_refl sha))
  Whole-pieces manifest filestore_archive database_dump _ total sum checksum =
      rw (total, sum, ==_refl job) (ground (arith, checksum, ==_iff s sha, ==_refl sha))
  Whole-pieces k l m h total sum checksum = absurd (ground arith)

pub IsComplete-whole :
    (job sha : Text) (total : ℕ) (j : BackupJob) (as' : List BackupArtifactInput)
    → IsComplete as' sha total
    → j.total_size_bytes ≡ some total
    → j.manifest_sha256 ≡ some sha
    → (now : ℕ) (o p q : Content)
    → is_whole j
        (put_contents job job database_dump now as' o)
        (put_contents job job filestore_archive now as' p)
        (put_contents job job manifest now as' q)
      ≡ true
IsComplete-whole job sha total j [] c h k now o p q = absurd (ground (arith, c.three))
IsComplete-whole job sha total j (x ∷ []) c h k now o p q = absurd (ground (arith, c.three))
IsComplete-whole job sha total j (x ∷ y ∷ []) c h k now o p q = absurd (ground (arith, c.three))
IsComplete-whole job sha total j (x ∷ y ∷ z ∷ []) c h k now o p q =
    Whole-pieces job sha j x.size_bytes y.size_bytes z.size_bytes x.sha256 y.sha256 z.sha256 o p q
      x.artifact_kind y.artifact_kind z.artifact_kind (fresh-any_order x y z c.distinct)
      (ground (arith, c.sum)) k c.checksum
IsComplete-whole job sha total j (x ∷ y ∷ z ∷ w ∷ rest) c h k now o p q =
    absurd (ground (arith, c.three))
