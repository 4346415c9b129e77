-- ===== src/Conversions/Requests.antt =====
-- `listConversions` and `createConversion` of deploy/cloudflare/src/trialConversion.ts.
use dsx_control_plane.Base.{
  ℕ, String, Bool, true, false, not, ◌&&◌, Option, none, some, List, [], ◌∷◌, ◌++◌, Result, ok,
  ◌>>=◌, ◌>>◌, ensure, or_else, stop_at, map_err, leb, if◌then◌else◌,
}
use dsx_control_plane.Base.Lists.{find, select, take}
use dsx_control_plane.Text.{Text, ◌==◌}
use dsx_control_plane.Table.{row}
use dsx_control_plane.Table.Order.{sort, first}
use dsx_control_plane.Db.{Db, tenant_of}
use dsx_control_plane.Db.States.{
  EnvironmentKind, TrialState, ConversionState, ConversionMode, same_kind, is_clean,
  conversion_word, mode_word,
}
use dsx_control_plane.Db.Rows.{Tenant, Conversion, AuditEvent, Payload, word, text as txt}
use dsx_control_plane.Http.{Env, Request, read_json, is_admin}
use dsx_control_plane.Http.Response.{
  Response, error_with, conversion, conversions, fail, settle, commit,
}
use dsx_control_plane.Cleanup.Jobs.{is_present}
use dsx_control_plane.Conversions.Inputs.{
  TrialConversionRequestInput, parse_trial_conversion_request_input,
}

-- SELECT ... FROM trial_conversion_requests WHERE request_key = ?
abbrev pub conversion_by_key : Db → Text → Option Conversion
conversion_by_key db key = row (λ c. c.request_key) key db.trial_conversion_requests

abbrev only_trial : Option Tenant → Option Tenant
only_trial none = none
only_trial (some t) = if same_kind t.environment_kind EnvironmentKind.trial then some t else none

-- The tenant, if its `environment_kind` is trial.
unfoldable pub trial_tenant : Db → Text → Option Tenant
unfolding row same_kind ◌==◌
trial_tenant db id = only_trial (tenant_of db id)

-- requested, approved, provisioning or ready
unfoldable pub is_in_use : ConversionState → Bool
is_in_use ConversionState.failed = false
is_in_use ConversionState.cancelled = false
is_in_use _ = true

-- What the index `idx_trial_conversion_one_active` holds unique.
unfoldable pub blocks : Text → Conversion → Bool
unfolding is_in_use ◌==◌
blocks trial_tenant_id c = c.trial_tenant_id == trial_tenant_id && is_in_use c.state

abbrev newest_request_first : Conversion → Conversion → Bool
newest_request_first a b = not (leb a.requested_at b.requested_at)

unfoldable pub blocking_conversion : Db → Text → Option Conversion
unfolding sort select blocks
blocking_conversion db trial_tenant_id =
    first (sort newest_request_first (select (blocks trial_tenant_id) db.trial_conversion_requests))

abbrev is_active_trial : Option TrialState → Bool
is_active_trial (some TrialState.active) = true
is_active_trial _ = false

abbrev is_past_trial : Option TrialState → Bool
is_past_trial (some TrialState.active) = true
is_past_trial (some TrialState.expired) = true
is_past_trial (some TrialState.cleaned) = true
is_past_trial _ = false

-- The error of a trial that may not be converted in this mode.
unfoldable pub convertible : ConversionMode → Tenant → Option String
unfolding is_present
convertible ConversionMode.promote_trial_data t =
    if is_active_trial t.trial_state && is_present t.database_name
    then none
    else some "trial_data_promotion_not_available"
convertible ConversionMode.clean_production t =
    if is_past_trial t.trial_state then none else some "trial_not_convertible"

-- `INSERT INTO trial_conversion_requests`: the primary key and the two unique indexes.
unfoldable pub insert_conversion : Conversion → List Conversion → Option (List Conversion)
unfolding row find blocks ◌==◌
insert_conversion c cs = elim (row (λ x. x.id) c.id cs) [
  | some _ ↦ none
  | none ↦ elim (row (λ x. x.request_key) c.request_key cs) [
    | some _ ↦ none
    | none ↦ elim (find (blocks c.trial_tenant_id) cs) [
      | some _ ↦ none
      | none ↦ some (cs ++ c ∷ [])
    ]
  ]
]

abbrev pub new_conversion : TrialConversionRequestInput → Text → Text → ℕ → Conversion
new_conversion input id trial_tenant_id now = record {
  id = id;
  trial_tenant_id = trial_tenant_id;
  request_key = input.idempotency_key;
  mode = input.mode;
  state = ConversionState.requested;
  target_tenant_id = none;
  promotion_confirmed_at = if is_clean input.mode then none else some now;
  error_code = none;
  requested_at = now;
  updated_at = now;
  started_at = none;
  finished_at = none;
}

-- An audit event without an `actor_id`.
abbrev pub conversion_audit : String → String → String → Text → Payload → ℕ → AuditEvent
conversion_audit event_type actor_type target_type target_id payload at = record {
  event_type = event_type;
  actor_type = actor_type;
  actor_id = none;
  target_type = target_type;
  target_id = target_id;
  payload = payload;
  created_at = at;
}

abbrev request_payload : Conversion → Payload
request_payload c = ("mode", word (mode_word c.mode)) ∷ ("request_key", txt c.request_key) ∷ []

-- The batch of `createConversion`.
unfoldable pub add_conversion : Conversion → ℕ → Db → Option Db
unfolding insert_conversion
add_conversion c now db = elim (insert_conversion c db.trial_conversion_requests) [
  | none ↦ none
  | some cs ↦ some (record db {
    trial_conversion_requests = cs;
    audit_events =
        db.audit_events
        ++ conversion_audit "trial.conversion.requested" "admin" "trial_conversion" c.id
            (request_payload c) now
          ∷ [];
  })
]

abbrev replayed : Text → Conversion → Response
replayed trial_tenant_id c =
    if c.trial_tenant_id == trial_tenant_id
    then record { status = 200; body = conversion (some c) true }
    else fail 409 "idempotency_key_in_use"

-- The reads and the early returns, after the input is parsed.
unfoldable pub check_conversion_input :
    TrialConversionRequestInput → Text → Db → Result Response (Unit {0})
check_conversion_input input trial_tenant_id db = do
  trial ← or_else (trial_tenant db trial_tenant_id) (fail 404 "trial_not_found")
  stop_at (conversion_by_key db input.idempotency_key) (replayed trial_tenant_id)
  stop_at (convertible input.mode trial) (fail 409)
  stop_at (blocking_conversion db trial_tenant_id) (λ existing. record {
    status = 409;
    body = error_with "conversion_already_exists" (
        ("conversion_id", txt existing.id) ∷ ("state", word (conversion_word existing.state)) ∷ []);
  })

unfoldable pub parse_conversion_request :
    Env → Request → Result Response TrialConversionRequestInput
parse_conversion_request env request = do
  ensure (is_admin env request) (fail 401 "unauthorized")
  body ← or_else (read_json request) (fail 400 "invalid_json")
  map_err (fail 400) (parse_trial_conversion_request_input body)

unfoldable pub check_conversion :
    Env → Request → Text → Db → Result Response TrialConversionRequestInput
check_conversion env request trial_tenant_id db = do
  input ← parse_conversion_request env request
  check_conversion_input input trial_tenant_id db
  ok input

unfoldable pub create_conversion : Env → Request → Text → Text → ℕ → Db → Response × Db
create_conversion env request trial_tenant_id id now db = settle db do
  input ← check_conversion env request trial_tenant_id db
  commit (add_conversion (new_conversion input id trial_tenant_id now) now db) (λ after. record {
    status = 201;
    body = conversion (conversion_by_key after input.idempotency_key) false;
  })

abbrev of_trial : Text → Conversion → Bool
of_trial trial_tenant_id c = c.trial_tenant_id == trial_tenant_id

unfoldable pub list_conversions : Env → Request → Text → Db → Response
unfolding trial_tenant sort select ◌==◌
list_conversions env request trial_tenant_id db =
    if is_admin env request
    then elim (trial_tenant db trial_tenant_id) [
      | none ↦ fail 404 "trial_not_found"
      | some _ ↦ record {
        status = 200;
        body = conversions (
            take 50 (
              sort newest_request_first
                (select (of_trial trial_tenant_id) db.trial_conversion_requests)));
      }
    ]
    else fail 401 "unauthorized"
