-- ===== src/Conversions/Inputs.antt =====
-- The request bodies of deploy/cloudflare/src/trialConversion.ts and productionPlacement.ts.
use dsx_control_plane.Base.{
  String, Bool, true, false, not, ◌&&◌, ◌||◌, Option, none, some, [], ◌++◌, leb, if◌then◌else◌,
  Result, ok, ◌>>=◌, ◌>>◌, ensure, or_else,
}
use dsx_control_plane.Base.Lists.{length}
use dsx_control_plane.Text.{Text, ◌==◌, text, is_empty, trim, to_lower_case, slice}
use dsx_control_plane.Text.Patterns.{safe_idempotency_key, safe_slug, safe_uuid}
use dsx_control_plane.Json.{Json, bool, str, Fields, get, string_value}
use dsx_control_plane.Db.States.{ConversionMode, clean_production, promote_trial_data, is_clean}
use dsx_control_plane.Conversions.Slug.{production_slug_for_conversion}

-- `value === true`
abbrev pub is_true : Option Json → Bool
is_true (some (bool true)) = true
is_true _ = false

pub record TrialConversionRequestInput : Type 0 where
  pub idempotency_key : Text
  pub mode : ConversionMode
  pub confirm_data_promotion : Bool

-- `DEFAULT_TRIAL_CONVERSION_MODE`, `TRIAL_CONVERSION_MODES`, and the cast that follows the test.
unfoldable pub parse_mode : Text → Option ConversionMode
unfolding ◌==◌
parse_mode s =
    if is_empty s
    then some clean_production
    else if s == text "clean_production"
    then some clean_production
    else if s == text "promote_trial_data"
    then some promote_trial_data
    else none

unfoldable pub parse_trial_conversion_request_input :
    Fields → Result String TrialConversionRequestInput
unfolding get string_value safe_idempotency_key parse_mode is_clean
parse_trial_conversion_request_input input = do
  let key = string_value (get input (text "idempotency_key")) 128
  ensure (safe_idempotency_key key) "invalid_idempotency_key"
  mode ← or_else (parse_mode (string_value (get input (text "mode")) 32)) "invalid_conversion_mode"
  let confirmed = is_true (get input (text "confirm_data_promotion"))
  ensure (is_clean mode || confirmed) "data_promotion_confirmation_required"
  ok (record { idempotency_key = key; mode = mode; confirm_data_promotion = confirmed })

pub record TrialConversionApprovalInput : Type 0 where
  pub production_name : Text
  pub production_slug : Text

-- `left || right` on strings.
abbrev pub or_text : Text → Text → Text
or_text left right = if is_empty left then right else left

-- A string, trimmed and in lower case; "" for any other value.
unfoldable pub lower_text : Option Json → Text
unfolding trim to_lower_case
lower_text (some (str s)) = to_lower_case (trim s)
lower_text _ = []

unfoldable pub parse_trial_conversion_approval_input :
    Fields → Text → Text → Text → Result String TrialConversionApprovalInput
unfolding get string_value is_empty lower_text safe_slug production_slug_for_conversion
parse_trial_conversion_approval_input input trial_name trial_slug conversion_id = do
  let name =
      or_text (string_value (get input (text "production_name")) 120)
        (slice 120 (trial_name ++ text " Production"))
  let slug =
      or_text (lower_text (get input (text "production_slug")))
        (production_slug_for_conversion trial_slug conversion_id)
  ensure (not (is_empty name)) "invalid_production_name"
  ensure (leb 2 (length slug) && leb (length slug) 64 && safe_slug slug) "invalid_production_slug"
  ok (record { production_name = name; production_slug = slug })

-- `productionExecutionEnabled`
unfoldable pub production_execution_enabled : Option Text → Bool
unfolding trim to_lower_case ◌==◌
production_execution_enabled none = false
production_execution_enabled (some value) = to_lower_case (trim value) == text "true"

-- `parseProductionPlacementInput`; what is left of the input is the node's id.
unfoldable pub parse_production_placement_input : Fields → Result String Text
unfolding get lower_text safe_uuid
parse_production_placement_input input = do
  ensure (is_true (get input (text "confirm_production_placement")))
      "production_placement_confirmation_required"
  let node_id = lower_text (get input (text "node_id"))
  ensure (safe_uuid node_id) "invalid_production_node_id"
  ok node_id
