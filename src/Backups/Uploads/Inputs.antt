-- ===== src/Backups/Uploads/Inputs.antt =====
-- `parseBackupUploadResult` of deploy/cloudflare/src/backupUploadOperations.ts.
use dsx_control_plane.Base.{
  ℕ, String, Bool, not, ◌&&◌, ◌||◌, Option, none, some, List, [], ◌∷◌, leb, eqb, if◌then◌else◌,
  Result, ok, err, ◌>>=◌, ◌>>◌, ensure, or_else,
}
use dsx_control_plane.Base.Lists.{length, every, some_of}
use dsx_control_plane.Text.{Text, ◌==◌, text, is_empty, trim, to_lower_case}
use dsx_control_plane.Text.Patterns.{head_and_tail, is_alnum, is_key_unit, safe_code}
use dsx_control_plane.Json.{Json, str, Fields, get}
use dsx_control_plane.Db.States.{ArtifactKind, same_artifact}
use dsx_control_plane.Backups.Results.{
  safe_sha256, keys, only_keys, parse_artifact_kind, safe_integer, object_of, new_kind, three_items,
}

-- SAFE_VERSION: ^[A-Za-z0-9][A-Za-z0-9._:/+"=-]{0,255}$
unfoldable pub safe_version : Text → Bool
unfolding head_and_tail is_alnum is_key_unit every
safe_version =
    head_and_tail is_alnum
      (λ c. is_key_unit c || eqb c b'/' || eqb c b'+' || eqb c b'"' || eqb c b'=') 0 255

-- `exactKeys`
unfoldable pub exact_keys : List String → Fields → Bool
unfolding only_keys
exact_keys expected input = only_keys expected input && eqb (length (keys input)) (length expected)

-- `stringValue(value, maxLength, error)`; `none` is the error.
unfoldable pub bounded_text : Option Json → ℕ → Option Text
unfolding trim is_empty
bounded_text (some (str s)) max_length =
    if is_empty (trim s) || not (leb (length (trim s)) max_length) then none else some (trim s)
bounded_text _ max_length = none

pub record VerifiedArtifact : Type 0 where
  pub artifact_kind : ArtifactKind
  pub size_bytes : ℕ
  pub sha256 : Text
  pub object_key : Text
  pub object_version : Text

-- One round of the loop of `parseVerifiedArtifacts`.
unfoldable pub parse_verified : Json → List ArtifactKind → Result String VerifiedArtifact
unfolding get to_lower_case exact_keys bounded_text parse_artifact_kind safe_integer safe_sha256
    safe_version some_of same_artifact
parse_verified raw seen = do
  item ← or_else (object_of raw) "invalid_backup_upload_artifact"
  ensure
      (exact_keys ("artifact_kind" ∷ "size_bytes" ∷ "sha256" ∷ "object_key" ∷ "object_version" ∷ [])
        item)
      "invalid_backup_upload_artifact_fields"
  word ← or_else (bounded_text (get item (text "artifact_kind")) 32) "invalid_artifact_kind"
  kind ← or_else (new_kind seen (parse_artifact_kind word)) "invalid_artifact_kind"
  size ← or_else (safe_integer (get item (text "size_bytes"))) "invalid_artifact_size_bytes"
  sum ← or_else (bounded_text (get item (text "sha256")) 64) "invalid_artifact_sha256"
  ensure (safe_sha256 (to_lower_case sum)) "invalid_artifact_sha256"
  key ← or_else (bounded_text (get item (text "object_key")) 512) "invalid_object_key"
  version ← or_else (bounded_text (get item (text "object_version")) 256) "invalid_object_version"
  ensure (safe_version version) "invalid_object_version"
  ok (record {
    artifact_kind = kind;
    size_bytes = size;
    sha256 = to_lower_case sum;
    object_key = key;
    object_version = version;
  })

unfoldable pub parse_each_verified :
    List Json → List ArtifactKind → Result String (List VerifiedArtifact)
unfolding parse_verified
parse_each_verified [] seen = ok []
parse_each_verified (raw ∷ rest) seen = do
  a ← parse_verified raw seen
  later ← parse_each_verified rest (a.artifact_kind ∷ seen)
  ok (a ∷ later)

unfoldable pub parse_verified_artifacts : Option Json → Result String (List VerifiedArtifact)
unfolding parse_each_verified
parse_verified_artifacts value = do
  vs ← or_else (three_items value) "invalid_backup_upload_artifacts"
  parsed ← parse_each_verified vs []
  ensure (eqb (length parsed) 3) "invalid_backup_upload_artifacts"
  ok parsed

-- The states that an agent may report, with what it reports in each.
pub data UploadReport : Type 0 where
  running : UploadReport
  verified : List VerifiedArtifact → UploadReport
  failed : Text → UploadReport

pub record UploadResult : Type 0 where
  pub lease_token : Text
  pub report : UploadReport

abbrev parse_running : Fields → Result String UploadReport
parse_running input = do
  ensure (exact_keys ("lease_token" ∷ "state" ∷ []) input) "invalid_backup_upload_running_fields"
  ok running

abbrev parse_failed : Fields → Result String UploadReport
parse_failed input = do
  ensure (exact_keys ("lease_token" ∷ "state" ∷ "error_code" ∷ []) input)
      "invalid_backup_upload_failed_fields"
  code ← or_else (bounded_text (get input (text "error_code")) 120) "invalid_error_code"
  ensure (safe_code (to_lower_case code)) "invalid_error_code"
  ok (failed (to_lower_case code))

abbrev parse_done : Fields → Result String UploadReport
parse_done input = do
  ensure (exact_keys ("lease_token" ∷ "state" ∷ "artifacts" ∷ []) input)
      "invalid_backup_upload_verified_fields"
  artifacts ← parse_verified_artifacts (get input (text "artifacts"))
  ok (verified artifacts)

unfoldable pub parse_upload_report : Text → Fields → Result String UploadReport
unfolding ◌==◌ get to_lower_case exact_keys bounded_text safe_code parse_verified_artifacts
parse_upload_report state input =
    if state == text "running"
    then parse_running input
    else if state == text "failed"
    then parse_failed input
    else if state == text "verified"
    then parse_done input
    else err "invalid_backup_upload_state"

unfoldable pub parse_backup_upload_result : Fields → Result String UploadResult
unfolding get to_lower_case bounded_text parse_upload_report
parse_backup_upload_result input = do
  lease_token ← or_else (bounded_text (get input (text "lease_token")) 256) "invalid_lease_token"
  ensure (leb 16 (length lease_token)) "invalid_lease_token"
  state ← or_else (bounded_text (get input (text "state")) 32) "invalid_backup_upload_state"
  report ← parse_upload_report (to_lower_case state) input
  ok (record { lease_token = lease_token; report = report })
