-- ===== src/Trials/Inputs.antt =====
-- `parseTrialRequestInput` of deploy/cloudflare/src/trials.ts.
use dsx_control_plane.Base.{String, none, some, Result, ok, ◌>>=◌, ◌>>◌, ensure}
use dsx_control_plane.Text.{Text, text}
use dsx_control_plane.Text.Patterns.{safe_idempotency_key}
use dsx_control_plane.Json.{str, Fields, end, field, get, string_value}
use dsx_control_plane.Db.States.{Sector}
use dsx_control_plane.Provisioning.Inputs.{parse_tenant_input}

pub record TrialRequestInput : Type 0 where
  pub name : Text
  pub slug : Text
  pub sector : Sector
  pub idempotency_key : Text

-- A property of the object that is handed on, unless it is undefined.
abbrev field_of : String → Fields → Fields → Fields
field_of key input rest = elim (get input (text key)) [
  | none ↦ rest
  | some v ↦ field (text key) v rest
]

abbrev as_tenant : Fields → Fields
as_tenant input = field_of "name" input (
    field_of "slug" input
      (field_of "sector" input (field (text "environment_kind") (str (text "trial")) end)))

unfoldable pub parse_trial_request_input : Fields → Result String TrialRequestInput
unfolding get parse_tenant_input safe_idempotency_key
parse_trial_request_input input = do
  t ← parse_tenant_input (as_tenant input)
  let key = string_value (get input (text "idempotency_key")) 128
  ensure (safe_idempotency_key key) "invalid_idempotency_key"
  ok (record { name = t.name; slug = t.slug; sector = t.sector; idempotency_key = key })
