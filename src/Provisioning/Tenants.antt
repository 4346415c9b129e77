-- ===== src/Provisioning/Tenants.antt =====
-- Tenants in the admin routes of deploy/cloudflare/src/provisioning.ts. `db` is the database that a
-- request meets, and a handler returns its response with the database that it leaves.
use mathlib.Core.Option
use dsx_control_plane.Base.{
  ℕ, String, Bool, not, Option, none, some, List, [], ◌∷◌, ◌++◌, ◌>>=◌, ◌>>◌, ensure, or_else,
  stop_at, map_err, leb, if◌then◌else◌,
}
use dsx_control_plane.Base.Lists.{take}
use dsx_control_plane.Text.{Text, ◌==◌, text}
use dsx_control_plane.Table.{row}
use dsx_control_plane.Table.Order.{sort}
use dsx_control_plane.Db.{Db}
use dsx_control_plane.Db.States.{pending, sector_word, kind_word}
use dsx_control_plane.Db.Rows.{Tenant, JobEvent, AuditEvent, Payload, word, text as txt}
use dsx_control_plane.Http.{Env, Request, read_json, is_admin}
use dsx_control_plane.Http.Response.{Response, error_with, tenant, tenants, fail, settle, commit}
use dsx_control_plane.Provisioning.Inputs.{TenantInput, parse_tenant_input}

-- `INSERT INTO tenants`, which the primary key and the unique slug can refuse. The other unique
-- columns of such a row are NULL.
unfoldable pub insert_tenant : Tenant → List Tenant → Option (List Tenant)
unfolding row ◌==◌
insert_tenant t ts = elim (row (λ x. x.id) t.id ts) [
  | some _ ↦ none
  | none ↦ elim (row (λ x. x.slug) t.slug ts) [ some _ ↦ none | none ↦ some (ts ++ t ∷ []) ]
]

abbrev pub new_tenant : TenantInput → Text → ℕ → Tenant
new_tenant input id created_at = record {
  id = id;
  name = input.name;
  slug = input.slug;
  sector = input.sector;
  environment_kind = input.environment_kind;
  status = pending;
  assigned_node_id = none;
  database_name = none;
  trial_state = none;
  trial_request_key = none;
  trial_requested_at = none;
  trial_started_at = none;
  trial_expires_at = none;
  trial_expired_at = none;
  public_hostname = none;
  created_at = created_at;
  updated_at = created_at;
}

abbrev pub admin_audit : String → String → Text → Payload → ℕ → AuditEvent
admin_audit event_type target_type target_id payload at = record {
  event_type = event_type;
  actor_type = "admin";
  actor_id = some (text "admin-api");
  target_type = target_type;
  target_id = target_id;
  payload = payload;
  created_at = at;
}

-- The batch of `createTenant`.
unfoldable pub add_tenant : Tenant → Db → Option Db
unfolding insert_tenant
add_tenant t db =
    let payload : Payload =
      ("slug", txt t.slug)
      ∷ ("sector", word (sector_word t.sector))
      ∷ ("environment_kind", word (kind_word t.environment_kind))
      ∷ [] in
    Option.map
      (λ ts. record db {
        tenants = ts;
        audit_events =
            db.audit_events ++ admin_audit "tenant.created" "tenant" t.id payload t.created_at ∷ [];
      })
      (insert_tenant t db.tenants)

unfoldable pub create_tenant : Env → Request → Text → ℕ → Db → Response × Db
unfolding is_admin read_json row add_tenant
create_tenant env request id now db = settle db do
  ensure (is_admin env request) (fail 401 "unauthorized")
  body ← or_else (read_json request) (fail 400 "invalid_json")
  input ← map_err (fail 400) (parse_tenant_input body)
  stop_at (row (λ t. t.slug) input.slug db.tenants) λ t. record {
    status = 409;
    body = error_with "tenant_slug_exists" (("tenant_id", txt t.id) ∷ []);
  }
  commit (add_tenant (new_tenant input id now) db)
      (λ _. record { status = 201; body = tenant (new_tenant input id now) })

abbrev pub job_event : Text → String → Option String → String → Payload → ℕ → JobEvent
job_event id event_type from to payload at = record {
  job_id = id;
  event_type = event_type;
  from_state = from;
  to_state = some to;
  payload = payload;
  created_at = at;
}

abbrev newest_tenant_first : Tenant → Tenant → Bool
newest_tenant_first a b = not (leb a.created_at b.created_at)

unfoldable pub list_tenants : Env → Request → Db → Response
unfolding sort
list_tenants env request db =
    if is_admin env request
    then record { status = 200; body = tenants (take 500 (sort newest_tenant_first db.tenants)) }
    else fail 401 "unauthorized"
