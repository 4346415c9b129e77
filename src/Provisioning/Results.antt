-- ===== src/Provisioning/Results.antt =====
-- `parseOperationResult` of deploy/cloudflare/src/nodeOperations.ts.
use dsx_control_plane.Base.{
  ℕ, String, not, ◌&&◌, Bool, true, false, Option, none, some, leb, if◌then◌else◌, Result, ok,
  ◌>>=◌, ◌>>◌, ensure, or_else,
}
use dsx_control_plane.Base.Lists.{length}
use dsx_control_plane.Text.{Text, ◌==◌, text, is_empty, trim, to_lower_case, slice}
use dsx_control_plane.Text.Patterns.{safe_code, safe_database}
use dsx_control_plane.Json.{Json, str, Fields, get, string_value}
use dsx_control_plane.Db.States.{ProvisioningState}

-- The states that an agent may report.
pub data Reported : Type 0 where
  running ready failed : Reported

abbrev pub state_of : Reported → ProvisioningState
state_of running = ProvisioningState.running
state_of ready = ProvisioningState.ready
state_of failed = ProvisioningState.failed

unfoldable pub parse_reported : Text → Option Reported
unfolding ◌==◌
parse_reported s =
    if s == text "running"
    then some running
    else if s == text "ready"
    then some ready
    else if s == text "failed"
    then some failed
    else none

-- `typeof v === "string" ? v.trim().toLowerCase().slice(0, n) : null`
unfoldable pub lowered : Option Json → ℕ → Option Text
unfolding trim to_lower_case
lowered (some (str s)) n = some (slice n (to_lower_case (trim s)))
lowered _ n = none

abbrev pub admits : (Text → Bool) → Option Text → Bool
admits p none = false
admits p (some s) = p s

abbrev pub is_null_or : (Text → Bool) → Option Text → Bool
is_null_or p none = true
is_null_or p (some s) = p s

-- `errorCode || fallback`
abbrev pub code_or : Option Text → Text → Text
code_or none fallback = fallback
code_or (some s) fallback = if is_empty s then fallback else s

pub record OperationResultInput : Type 0 where
  pub lease_token : Text
  pub state : Reported
  pub error_code : Option Text
  pub database_name : Option Text

abbrev pub database_ok : Reported → Option Text → Bool
database_ok ready name = admits (λ s. not (is_empty s) && safe_database s) name
database_ok _ name = true

abbrev pub reported_error : Reported → Option Text → Option Text
reported_error failed code = some (code_or code (text "operation_failed"))
reported_error _ code = none

abbrev pub reported_name : Reported → Option Text → Option Text
reported_name ready name = name
reported_name _ name = none

-- The state is lowered after it is trimmed and never cut.
abbrev pub state_field : Option Json → Text
state_field (some (str s)) = to_lower_case (trim s)
state_field _ = text ""

unfoldable pub parse_operation_result : Fields → Result String OperationResultInput
unfolding get string_value trim to_lower_case parse_reported lowered safe_code safe_database
    is_empty
parse_operation_result input = do
  let lease_token = string_value (get input (text "lease_token")) 256
  let error_code = lowered (get input (text "error_code")) 120
  let database_name = lowered (get input (text "database_name")) 63
  ensure (leb 16 (length lease_token)) "invalid_lease_token"
  state ←
      or_else (parse_reported (state_field (get input (text "state")))) "invalid_operation_state"
  ensure (is_null_or safe_code error_code) "invalid_error_code"
  ensure (database_ok state database_name) "invalid_database_name"
  ok (record {
    lease_token = lease_token;
    state = state;
    error_code = reported_error state error_code;
    database_name = reported_name state database_name;
  })
