-- ===== src/Provisioning/Inputs.antt =====
-- The request bodies of deploy/cloudflare/src/provisioning.ts. `throw new Error(code)` is
-- `err code`.
use dsx_control_plane.Base.{
  String, not, ◌&&◌, Option, none, some, leb, if◌then◌else◌, Result, ok, ◌>>=◌, ◌>>◌, ensure,
  or_else,
}
use dsx_control_plane.Base.Lists.{length}
use dsx_control_plane.Text.{Text, ◌==◌, text, is_empty, trim, to_lower_case}
use dsx_control_plane.Text.Patterns.{safe_slug, safe_name, safe_template_id, safe_idempotency_key}
use dsx_control_plane.Json.{str, Fields, get, string_value, or_default}
use dsx_control_plane.Db.States.{
  Sector, restaurant, cafe, retail, supermarket, EnvironmentKind, test, trial, production,
}

-- `SECTORS`, with the cast that follows the test.
unfoldable pub parse_sector : Text → Option Sector
unfolding ◌==◌
parse_sector s =
    if s == text "restaurant"
    then some restaurant
    else if s == text "cafe"
    then some cafe
    else if s == text "retail"
    then some retail
    else if s == text "supermarket"
    then some supermarket
    else none

-- `ENVIRONMENT_KINDS`
unfoldable pub parse_environment_kind : Text → Option EnvironmentKind
unfolding ◌==◌
parse_environment_kind s =
    if s == text "test"
    then some test
    else if s == text "trial"
    then some trial
    else if s == text "production"
    then some production
    else none

abbrev pub sector_text : Sector → Text
sector_text restaurant = text "restaurant"
sector_text cafe = text "cafe"
sector_text retail = text "retail"
sector_text supermarket = text "supermarket"

abbrev pub kind_text : EnvironmentKind → Text
kind_text test = text "test"
kind_text trial = text "trial"
kind_text production = text "production"

pub record TenantInput : Type 0 where
  pub name : Text
  pub slug : Text
  pub sector : Sector
  pub environment_kind : EnvironmentKind

unfoldable pub parse_tenant_input : Fields → Result String TenantInput
unfolding string_value get or_default to_lower_case trim is_empty parse_sector
    parse_environment_kind safe_slug
parse_tenant_input input = do
  let name = string_value (get input (text "name")) 120
  let slug = to_lower_case (string_value (get input (text "slug")) 64)
  let sector_name = to_lower_case (string_value (get input (text "sector")) 32)
  let kind_name =
      to_lower_case
        (string_value (or_default (get input (text "environment_kind")) (str (text "test"))) 32)
  ensure (not (is_empty name)) "invalid_tenant_name"
  ensure (leb 2 (length slug) && safe_slug slug) "invalid_tenant_slug"
  sector ← or_else (parse_sector sector_name) "invalid_sector"
  kind ← or_else (parse_environment_kind kind_name) "invalid_environment_kind"
  ok (record { name = name; slug = slug; sector = sector; environment_kind = kind })

pub record ProvisioningJobInput : Type 0 where
  pub tenant_id : Text
  pub template_id : Text
  pub idempotency_key : Text
  pub pool : Text

unfoldable pub parse_provisioning_job_input : Fields → Result String ProvisioningJobInput
unfolding string_value get or_default to_lower_case trim is_empty safe_template_id
    safe_idempotency_key safe_name
parse_provisioning_job_input input = do
  let tenant_id = string_value (get input (text "tenant_id")) 64
  let template_id = to_lower_case (string_value (get input (text "template_id")) 96)
  let idempotency_key = string_value (get input (text "idempotency_key")) 128
  let pool =
      to_lower_case
        (string_value (or_default (get input (text "pool")) (str (text "non-production"))) 64)
  ensure (not (is_empty tenant_id)) "invalid_tenant_id"
  ensure (safe_template_id template_id) "invalid_template_id"
  ensure (safe_idempotency_key idempotency_key) "invalid_idempotency_key"
  ensure (safe_name pool) "invalid_pool"
  ok (record {
    tenant_id = tenant_id;
    template_id = template_id;
    idempotency_key = idempotency_key;
    pool = pool;
  })
