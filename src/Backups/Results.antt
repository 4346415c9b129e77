-- ===== src/Backups/Results.antt =====
-- `parseBackupOperationResult` of deploy/cloudflare/src/backupOperations.ts, with the objects of
-- the artifacts, and what both parsers share.
use dsx_control_plane.Base.{
  ℕ, ◌+◌, String, Bool, true, false, ◌&&◌, Option, none, some, List, [], ◌∷◌, leb, eqb,
  if◌then◌else◌, Result, ok, err, ◌>>=◌, ◌>>◌, ensure, or_else,
}
use dsx_control_plane.Base.Lists.{length, every, find, some_of}
use dsx_control_plane.Text.{Text, ◌==◌, text, trim, to_lower_case}
use dsx_control_plane.Text.Patterns.{is_lower_hex, safe_code}
use dsx_control_plane.Json.{
  Json, str, number, array, object, Fields, end, field, elements, get, string_value,
}
use dsx_control_plane.Db.States.{
  ArtifactKind, database_dump, filestore_archive, manifest, same_artifact,
}
use dsx_control_plane.Provisioning.Results.{state_field}

-- SHA256: ^[0-9a-f]{64}$
unfoldable pub safe_sha256 : Text → Bool
unfolding every is_lower_hex
safe_sha256 s = eqb (length s) 64 && every is_lower_hex s

-- `Object.keys`
abbrev pub keys : Fields → List Text
keys end = []
keys (field name value fs) = name ∷ keys fs

-- Every key is one of those.
unfoldable pub only_keys : List String → Fields → Bool
unfolding every some_of ◌==◌
only_keys allowed input = every (λ key. some_of (λ name. key == text name) allowed) (keys input)

abbrev has : Fields → String → Bool
has item name = elim (get item (text name)) [ none ↦ false | some _ ↦ true ]

unfoldable pub parse_artifact_kind : Text → Option ArtifactKind
unfolding ◌==◌
parse_artifact_kind s =
    if s == text "database_dump"
    then some database_dump
    else if s == text "filestore_archive"
    then some filestore_archive
    else if s == text "manifest"
    then some manifest
    else none

-- Number.MAX_SAFE_INTEGER
abbrev pub max_safe_integer : ℕ
max_safe_integer = 9007199254740991

-- A number with `Number.isSafeInteger(n) && n >= 0`.
unfoldable pub safe_integer : Option Json → Option ℕ
safe_integer (some (number n)) = if leb n max_safe_integer then some n else none
safe_integer _ = none

abbrev trimmed : Option Json → Text
trimmed (some (str s)) = trim s
trimmed _ = []

pub record BackupArtifactInput : Type 0 where
  pub artifact_kind : ArtifactKind
  pub size_bytes : ℕ
  pub sha256 : Text

abbrev pub object_of : Json → Option Fields
object_of (object fs) = some fs
object_of _ = none

-- The kind, if it is one that has not been seen.
abbrev pub new_kind : List ArtifactKind → Option ArtifactKind → Option ArtifactKind
new_kind seen none = none
new_kind seen (some kind) = if some_of (same_artifact kind) seen then none else some kind

-- One round of the loop of `parseArtifacts`.
unfoldable pub parse_artifact : Json → List ArtifactKind → Result String BackupArtifactInput
unfolding get trim to_lower_case parse_artifact_kind safe_integer safe_sha256 some_of same_artifact
parse_artifact raw seen = do
  item ← or_else (object_of raw) "invalid_backup_artifact"
  ensure
      (eqb (length (keys item)) 3
        && has item "artifact_kind"
        && has item "size_bytes"
        && has item "sha256")
      "invalid_backup_artifact_fields"
  kind ←
      or_else (new_kind seen (parse_artifact_kind (trimmed (get item (text "artifact_kind")))))
        "invalid_artifact_kind"
  size ← or_else (safe_integer (get item (text "size_bytes"))) "invalid_artifact_size_bytes"
  let checksum = state_field (get item (text "sha256"))
  ensure (safe_sha256 checksum) "invalid_artifact_sha256"
  ok (record { artifact_kind = kind; size_bytes = size; sha256 = checksum })

unfoldable pub parse_each_artifact :
    List Json → List ArtifactKind → Result String (List BackupArtifactInput)
unfolding parse_artifact
parse_each_artifact [] seen = ok []
parse_each_artifact (raw ∷ rest) seen = do
  a ← parse_artifact raw seen
  later ← parse_each_artifact rest (a.artifact_kind ∷ seen)
  ok (a ∷ later)

abbrev pub items : Option Json → Option (List Json)
items (some (array vs)) = some (elements vs)
items _ = none

abbrev pub three_items : Option Json → Option (List Json)
three_items v = elim (items v) [
  | none ↦ none
  | some vs ↦ if eqb (length vs) 3 then some vs else none
]

unfoldable pub parse_artifacts : Option Json → Result String (List BackupArtifactInput)
unfolding parse_each_artifact
parse_artifacts value = do
  vs ← or_else (three_items value) "invalid_backup_artifacts"
  parsed ← parse_each_artifact vs []
  ensure (eqb (length parsed) 3) "invalid_backup_artifacts"
  ok parsed

-- The sum is exact where it is compared: a sum that a double rounds is above every safe integer.
abbrev pub total_size : List BackupArtifactInput → ℕ
total_size [] = 0
total_size (a ∷ rest) = a.size_bytes + total_size rest

abbrev pub is_manifest : BackupArtifactInput → Bool
is_manifest a = same_artifact a.artifact_kind manifest

abbrev pub has_checksum : Text → Option BackupArtifactInput → Bool
has_checksum sha none = false
has_checksum sha (some a) = a.sha256 == sha

-- The states that an agent may report, with what it reports in each.
pub data BackupReport : Type 0 where
  running : BackupReport
  prepared : List BackupArtifactInput → Text → ℕ → BackupReport
  failed : Text → BackupReport

pub record BackupOperationResultInput : Type 0 where
  pub lease_token : Text
  pub report : BackupReport

abbrev parse_running : Fields → Result String BackupReport
parse_running input = do
  ensure (only_keys ("lease_token" ∷ "state" ∷ []) input) "invalid_backup_running_fields"
  ok running

abbrev parse_failed : Fields → Result String BackupReport
parse_failed input = do
  ensure (only_keys ("lease_token" ∷ "state" ∷ "error_code" ∷ []) input)
      "invalid_backup_failed_fields"
  let code = state_field (get input (text "error_code"))
  ensure (safe_code code) "invalid_error_code"
  ok (failed code)

unfoldable pub parse_prepared : Fields → Result String BackupReport
unfolding get trim to_lower_case only_keys safe_sha256 safe_integer parse_artifacts find ◌==◌
parse_prepared input = do
  ensure
      (only_keys
        ("lease_token" ∷ "state" ∷ "artifacts" ∷ "manifest_sha256" ∷ "total_size_bytes" ∷ []) input)
      "invalid_backup_prepared_fields"
  let sha = state_field (get input (text "manifest_sha256"))
  ensure (safe_sha256 sha) "invalid_manifest_sha256"
  total ← or_else (safe_integer (get input (text "total_size_bytes"))) "invalid_total_size_bytes"
  artifacts ← parse_artifacts (get input (text "artifacts"))
  ensure (eqb (total_size artifacts) total) "backup_total_size_mismatch"
  ensure (has_checksum sha (find is_manifest artifacts)) "backup_manifest_checksum_mismatch"
  ok (prepared artifacts sha total)

unfoldable pub parse_report : Text → Fields → Result String BackupReport
unfolding ◌==◌ parse_prepared only_keys get trim to_lower_case safe_code
parse_report state input =
    if state == text "running"
    then parse_running input
    else if state == text "failed"
    then parse_failed input
    else if state == text "prepared"
    then parse_prepared input
    else err "invalid_backup_operation_state"

unfoldable pub parse_backup_operation_result : Fields → Result String BackupOperationResultInput
unfolding get string_value trim to_lower_case parse_report
parse_backup_operation_result input = do
  let lease_token = string_value (get input (text "lease_token")) 256
  ensure (leb 16 (length lease_token)) "invalid_lease_token"
  report ← parse_report (state_field (get input (text "state"))) input
  ok (record { lease_token = lease_token; report = report })
