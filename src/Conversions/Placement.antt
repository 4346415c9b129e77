-- ===== src/Conversions/Placement.antt =====
-- `placeProduction` of deploy/cloudflare/src/productionPlacement.ts.
use dsx_control_plane.Base.{
  ℕ, Bool, true, false, not, ◌&&◌, Option, none, some, [], ◌∷◌, ◌++◌, Result, ok, ◌>>=◌, ◌>>◌,
  ensure, or_else, map_err, if◌then◌else◌,
}
use dsx_control_plane.Text.{Text, ◌==◌}
use dsx_control_plane.Time.{offline_seconds}
use dsx_control_plane.Table.{row, update}
use dsx_control_plane.Db.{Db, node_of, tenant_of, conversion_of}
use dsx_control_plane.Db.States.{
  EnvironmentKind, TenantStatus, ConversionState, ProvisioningState, same_state, same_kind,
  same_status, same_sector, same_conversion, is_clean, conversion_word,
}
use dsx_control_plane.Db.Rows.{
  Node, Template, Tenant, ProvisioningJob, Conversion, Payload, word, text as txt,
}
use dsx_control_plane.Http.{Env, Request, read_json, is_admin}
use dsx_control_plane.Http.Response.{Response, error_with, conversion_placed, fail, settle, commit}
use dsx_control_plane.Provisioning.Placement.{PlacementCandidate, select_placement_node}
use dsx_control_plane.Provisioning.Tenants.{job_event}
use dsx_control_plane.Provisioning.Jobs.{job_by_key, active_template, tenant_count, requirements}
use dsx_control_plane.Provisioning.Operations.Report.{coalesce}
use dsx_control_plane.Cleanup.Jobs.{non_empty}
use dsx_control_plane.Conversions.Inputs.{
  production_execution_enabled, parse_production_placement_input,
}
use dsx_control_plane.Conversions.Requests.{conversion_audit}
use dsx_control_plane.Conversions.Approval.{production_pool, conversion_key, of_trial}

abbrev pub is_null : Option Text → Bool
is_null none = true
is_null (some s) = false

abbrev pub is_text : Option Text → Text → Bool
is_text none s = false
is_text (some a) s = a == s

-- placed, dispatched, running or ready
abbrev is_past_placement : ProvisioningState → Bool
is_past_placement ProvisioningState.placed = true
is_past_placement ProvisioningState.dispatched = true
is_past_placement ProvisioningState.running = true
is_past_placement ProvisioningState.ready = true
is_past_placement _ = false

abbrev is_past_approval : ConversionState → Bool
is_past_approval ConversionState.provisioning = true
is_past_approval ConversionState.ready = true
is_past_approval _ = false

unfoldable pub is_placed_on : Conversion → ProvisioningJob → Text → Bool
unfolding ◌==◌
is_placed_on c j node_id =
    is_past_approval c.state && is_text j.node_id node_id && is_past_placement j.state

-- The condition of the update, and of the early return before it.
unfoldable pub is_placeable : ProvisioningJob → Bool
unfolding same_state ◌==◌
is_placeable j =
    same_state j.state ProvisioningState.queued && is_null j.node_id && j.pool == production_pool

abbrev only_production : Option Tenant → Option Tenant
only_production none = none
only_production (some t) =
    if same_kind t.environment_kind EnvironmentKind.production then some t else none

unfoldable pub is_pending : Tenant → Bool
unfolding same_kind same_status
is_pending t =
    same_kind t.environment_kind EnvironmentKind.production
    && same_status t.status TenantStatus.pending

abbrev for_sector : Tenant → Option Template → Option Template
for_sector t none = none
for_sector t (some p) = if same_sector p.sector t.sector then some p else none

abbrev pub candidate : Db → Node → PlacementCandidate
candidate db n = record { node = n; tenant_count = tenant_count db n.id }

unfoldable pub is_approved : Conversion → Bool
unfolding same_conversion
is_approved c = same_conversion c.state ConversionState.approved

abbrev pub placed_job : Text → ℕ → ProvisioningJob → ProvisioningJob
placed_job node_id now j = record j {
  node_id = some node_id;
  state = ProvisioningState.placed;
  updated_at = now;
}

abbrev pub placed_tenant : Text → ℕ → Tenant → Tenant
placed_tenant node_id now t = record t {
  assigned_node_id = some node_id;
  status = TenantStatus.provisioning;
  updated_at = now;
}

abbrev pub started_conversion : ℕ → Conversion → Conversion
started_conversion now c = record c {
  state = ConversionState.provisioning;
  started_at = coalesce c.started_at now;
  updated_at = now;
}

-- What a placement has found, once every test has passed.
pub record ProductionPlacement : Type 0 where
  pub request : Conversion
  pub job : ProvisioningJob
  pub target : Tenant
  pub node_id : Text

abbrev placement_payload : ProductionPlacement → Payload
placement_payload p =
    ("conversion_id", txt p.request.id)
    ∷ ("target_tenant_id", txt p.target.id)
    ∷ ("provisioning_job_id", txt p.job.id)
    ∷ ("node_id", txt p.node_id)
    ∷ ("pool", txt production_pool)
    ∷ []

-- The batch of `placeProduction`.
unfoldable pub place_target : ProductionPlacement → ℕ → Db → Db
unfolding update is_placeable is_pending is_approved ◌==◌
place_target p now db = record db {
  provisioning_jobs =
      update (λ j. j.id) p.job.id is_placeable (placed_job p.node_id now) db.provisioning_jobs;
  tenants = update (λ t. t.id) p.target.id is_pending (placed_tenant p.node_id now) db.tenants;
  trial_conversion_requests =
      update (λ c. c.id) p.request.id is_approved (started_conversion now)
        db.trial_conversion_requests;
  provisioning_job_events =
      db.provisioning_job_events
      ++ job_event p.job.id "conversion.production.placed" (some "queued") "placed"
          (placement_payload p) now
        ∷ [];
  audit_events =
      db.audit_events
      ++ conversion_audit "trial.conversion.production_placed" "admin" "trial_conversion"
          p.request.id (placement_payload p) now
        ∷ [];
}

unfoldable pub parse_placement : Env → Request → Result Response Text
parse_placement env request = do
  ensure (is_admin env request) (fail 401 "unauthorized")
  body ← or_else (read_json request) (fail 400 "invalid_json")
  node_id ← map_err (fail 400) (parse_production_placement_input body)
  ensure (production_execution_enabled env.production_provisioning_enabled)
      (fail 409 "production_execution_disabled")
  ok node_id

abbrev pub same_id : Option PlacementCandidate → Text → Bool
same_id none node_id = false
same_id (some c) node_id = c.id == node_id

-- The template of the job, and the node.
unfoldable pub check_node :
    Env → ProvisioningJob → Tenant → Text → ℕ → Db → Result Response (Unit {0})
check_node env j t node_id now db = do
  template ←
      or_else (for_sector t (active_template db j.template_id))
        (fail 409 "production_template_invalid")
  n ← or_else (node_of db node_id) (fail 404 "production_node_not_found")
  ensure
      (same_id
        (select_placement_node env.json_parse (requirements template production_pool) now
          (offline_seconds env.node_offline_seconds) (candidate db n ∷ []))
        node_id)
      (fail 409 "production_node_not_eligible")

-- The conversion, its job and its target.
unfoldable pub check_target : Text → Text → Text → Db → Result Response ProductionPlacement
check_target node_id trial_tenant_id conversion_id db = do
  c ←
      or_else (of_trial trial_tenant_id (conversion_of db conversion_id))
        (fail 404 "conversion_not_found")
  ensure (is_clean c.mode) (fail 409 "trial_data_promotion_requires_separate_flow")
  target_id ← or_else (non_empty c.target_tenant_id) (fail 409 "conversion_target_missing")
  j ←
      or_else (job_by_key db target_id (conversion_key c.id))
        (fail 404 "conversion_provisioning_job_not_found")
  ensure (not (is_placed_on c j node_id))
      (record { status = 200; body = conversion_placed (some c) (some j) true none })
  ensure (same_conversion c.state ConversionState.approved) (record {
    status = 409;
    body =
        error_with "invalid_conversion_transition"
          (("from_state", word (conversion_word c.state)) ∷ ("to_state", word "provisioning") ∷ []);
  })
  ensure (is_placeable j) (fail 409 "production_job_not_placeable")
  t ← or_else (only_production (tenant_of db target_id)) (fail 409 "production_target_invalid")
  ensure (same_status t.status TenantStatus.pending && is_null t.assigned_node_id)
      (fail 409 "production_target_not_placeable")
  ok (record { request = c; job = j; target = t; node_id = node_id })

-- The reads and the early returns, after the input is parsed and the switch tested.
unfoldable pub check_placement_input :
    Env → Text → Text → Text → ℕ → Db → Result Response ProductionPlacement
check_placement_input env node_id trial_tenant_id conversion_id now db = do
  p ← check_target node_id trial_tenant_id conversion_id db
  check_node env p.job p.target node_id now db
  ok p

unfoldable pub check_placement :
    Env → Request → Text → Text → ℕ → Db → Result Response ProductionPlacement
check_placement env request trial_tenant_id conversion_id now db = do
  node_id ← parse_placement env request
  check_placement_input env node_id trial_tenant_id conversion_id now db

unfoldable pub place_production : Env → Request → Text → Text → ℕ → Db → Response × Db
unfolding row ◌==◌
place_production env request trial_tenant_id conversion_id now db = settle db do
  p ← check_placement env request trial_tenant_id conversion_id now db
  commit (some (place_target p now db)) (λ after. record {
    status = 201;
    body =
        conversion_placed (of_trial trial_tenant_id (conversion_of after p.request.id))
          (job_by_key after p.target.id (conversion_key p.request.id)) false
          (some "production_job_placed");
  })
