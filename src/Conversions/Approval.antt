-- ===== src/Conversions/Approval.antt =====
-- `approveCleanProductionConversion` of deploy/cloudflare/src/trialConversion.ts. The ids of the
-- tenant and of the job that an approval draws are arguments.
use dsx_control_plane.Base.{
  ℕ, Bool, true, false, not, ◌&&◌, Option, none, some, List, [], ◌∷◌, ◌++◌, Result, ok, ◌>>=◌, ◌>>◌,
  ensure, or_else, stop_at, map_err, leb, if◌then◌else◌,
}
use dsx_control_plane.Base.Lists.{select}
use dsx_control_plane.Text.{Text, ◌==◌, text}
use dsx_control_plane.Json.{Fields}
use dsx_control_plane.Table.{row, update}
use dsx_control_plane.Table.Order.{sort, first}
use dsx_control_plane.Db.{Db, tenant_of, conversion_of}
use dsx_control_plane.Db.States.{
  Sector, EnvironmentKind, ConversionState, queued, same_sector, same_conversion, is_clean,
  conversion_word, mode_word,
}
use dsx_control_plane.Db.Rows.{
  Template, Tenant, ProvisioningJob, Conversion, Payload, word, text as txt,
}
use dsx_control_plane.Http.{Env, Request, read_json, is_admin}
use dsx_control_plane.Http.Response.{
  Response, error_with, conversion_approved, fail, settle, commit,
}
use dsx_control_plane.Provisioning.Tenants.{insert_tenant, new_tenant, job_event}
use dsx_control_plane.Provisioning.Jobs.{job_by_key, insert_job}
use dsx_control_plane.Cleanup.Jobs.{non_empty}
use dsx_control_plane.Conversions.Inputs.{
  TrialConversionApprovalInput, parse_trial_conversion_approval_input,
}
use dsx_control_plane.Conversions.Requests.{trial_tenant, conversion_audit}

-- `PRODUCTION_POOL`
abbrev pub production_pool : Text
production_pool = text "production"

-- `conversion:${conversionId}`
abbrev pub conversion_key : Text → Text
conversion_key id = text "conversion:" ++ id

abbrev serves : Sector → Template → Bool
serves sector p = same_sector p.sector sector && p.active

abbrev later_version : Template → Template → Bool
later_version a b = not (leb a.version b.version)

-- ... WHERE sector = ? AND active = 1 ORDER BY version DESC LIMIT 1
unfoldable pub latest_template : Db → Sector → Option Template
unfolding sort select same_sector
latest_template db sector = first (sort later_version (select (serves sector) db.templates))

-- What an approval has found, once every test has passed.
pub record Approval : Type 0 where
  pub trial : Tenant
  pub request : Conversion
  pub input : TrialConversionApprovalInput
  pub template : Template

abbrev pub target_tenant : Approval → Text → ℕ → Tenant
target_tenant a id now =
    new_tenant
      (record {
        name = a.input.production_name;
        slug = a.input.production_slug;
        sector = a.trial.sector;
        environment_kind = EnvironmentKind.production;
      })
      id now

abbrev pub queued_job : Approval → Text → Text → ℕ → ProvisioningJob
queued_job a tenant_id id now = record {
  id = id;
  tenant_id = tenant_id;
  template_id = a.template.id;
  node_id = none;
  pool = production_pool;
  state = queued;
  idempotency_key = conversion_key a.request.id;
  attempt = 0;
  error_code = none;
  created_at = now;
  updated_at = now;
  started_at = none;
  finished_at = none;
}

unfoldable pub is_requested : Conversion → Bool
unfolding same_conversion
is_requested c = same_conversion c.state ConversionState.requested

abbrev pub approved_conversion : Text → ℕ → Conversion → Conversion
approved_conversion target_id now c = record c {
  state = ConversionState.approved;
  target_tenant_id = some target_id;
  updated_at = now;
}

abbrev approval_payload : Approval → Text → Payload
approval_payload a target_id =
    ("conversion_id", txt a.request.id)
    ∷ ("trial_tenant_id", txt a.trial.id)
    ∷ ("target_tenant_id", txt target_id)
    ∷ ("template_id", txt a.template.id)
    ∷ ("pool", txt production_pool)
    ∷ ("mode", word (mode_word a.request.mode))
    ∷ []

abbrev pub with_target : Approval → Text → Text → ℕ → List Tenant → List ProvisioningJob → Db → Db
with_target a target_id job_id now ts js db = record db {
  tenants = ts;
  provisioning_jobs = js;
  provisioning_job_events =
      db.provisioning_job_events
      ++ job_event job_id "conversion.production.queued" none "queued"
          (approval_payload a target_id) now
        ∷ [];
  trial_conversion_requests =
      update (λ c. c.id) a.request.id is_requested (approved_conversion target_id now)
        db.trial_conversion_requests;
  audit_events =
      db.audit_events
      ++ conversion_audit "trial.conversion.approved" "admin" "trial_conversion" a.request.id
          (approval_payload a target_id) now
        ∷ conversion_audit "tenant.created.from_trial_conversion" "admin" "tenant" target_id
            (approval_payload a target_id) now
        ∷ conversion_audit "provisioning.job.queued.from_trial_conversion" "admin"
            "provisioning_job" job_id (approval_payload a target_id) now
        ∷ [];
}

-- The batch.
unfoldable pub approve : Approval → Text → Text → ℕ → Db → Option Db
unfolding insert_tenant insert_job update is_requested ◌==◌
approve a target_id job_id now db =
    elim (insert_tenant (target_tenant a target_id now) db.tenants) [
      | none ↦ none
      | some ts ↦ elim (insert_job (queued_job a target_id job_id now) db.provisioning_jobs) [
        | none ↦ none
        | some js ↦ some (with_target a target_id job_id now ts js db)
      ]
    ]

abbrev pub approved_before : Db → Conversion → Option Response
approved_before db c =
    if same_conversion c.state ConversionState.approved
    then elim (non_empty c.target_tenant_id) [
      | none ↦ none
      | some target ↦ some (record {
        status = 200;
        body =
            conversion_approved (some c) (tenant_of db target)
              (job_by_key db target (conversion_key c.id)) true none;
      })
    ]
    else none

abbrev pub of_trial : Text → Option Conversion → Option Conversion
of_trial trial_tenant_id none = none
of_trial trial_tenant_id (some c) = if c.trial_tenant_id == trial_tenant_id then some c else none

-- The reads and the early returns, after the body is read.
unfoldable pub check_approval_body : Fields → Text → Text → Db → Result Response Approval
check_approval_body body trial_tenant_id conversion_id db = do
  trial ← or_else (trial_tenant db trial_tenant_id) (fail 404 "trial_not_found")
  c ←
      or_else (of_trial trial_tenant_id (conversion_of db conversion_id))
        (fail 404 "conversion_not_found")
  stop_at (approved_before db c) (λ response. response)
  ensure (same_conversion c.state ConversionState.requested) (record {
    status = 409;
    body =
        error_with "invalid_conversion_transition"
          (("from_state", word (conversion_word c.state)) ∷ ("to_state", word "approved") ∷ []);
  })
  ensure (is_clean c.mode) (fail 409 "trial_data_promotion_requires_separate_flow")
  input ← map_err (fail 400) (parse_trial_conversion_approval_input body trial.name trial.slug c.id)
  stop_at (row (λ t. t.slug) input.production_slug db.tenants) (λ owner. record {
    status = 409;
    body = error_with "production_slug_exists" (("tenant_id", txt owner.id) ∷ []);
  })
  template ← or_else (latest_template db trial.sector) (fail 404 "active_template_not_found")
  ok (record { trial = trial; request = c; input = input; template = template })

unfoldable pub check_approval : Env → Request → Text → Text → Db → Result Response Approval
check_approval env request trial_tenant_id conversion_id db = do
  ensure (is_admin env request) (fail 401 "unauthorized")
  body ← or_else (read_json request) (fail 400 "invalid_json")
  check_approval_body body trial_tenant_id conversion_id db

unfoldable pub approve_clean_production_conversion :
    Env → Request → Text → Text → Text → Text → ℕ → Db → Response × Db
approve_clean_production_conversion env request trial_tenant_id conversion_id target_id job_id now
      db =
    settle db do
      a ← check_approval env request trial_tenant_id conversion_id db
      commit (approve a target_id job_id now db) (λ after. record {
        status = 201;
        body =
            conversion_approved (conversion_of after a.request.id) (tenant_of after target_id)
              (job_by_key after target_id (conversion_key a.request.id)) false
              (some "production_placement_required");
      })
