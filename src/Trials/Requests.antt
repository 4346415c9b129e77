-- ===== src/Trials/Requests.antt =====
-- `createTrial` and `listTrials` of deploy/cloudflare/src/trials.ts. The
-- ids of the tenant and of the job that a request draws are arguments.
use dsx_control_plane.Base.{
  ℕ, Bool, true, false, not, ◌&&◌, Option, none, some, List, [], ◌∷◌, ◌++◌, map, Result, ok, ◌>>=◌,
  ◌>>◌, ensure, or_else, stop_at, map_err, leb, if◌then◌else◌,
}
use dsx_control_plane.Base.Lists.{find, select, take}
use dsx_control_plane.Text.{Text, ◌==◌, text}
use dsx_control_plane.Time.{offline_seconds, trial_duration_days}
use dsx_control_plane.Table.{row}
use dsx_control_plane.Table.Order.{sort, first}
use dsx_control_plane.Db.{Db}
use dsx_control_plane.Db.States.{
  Sector, EnvironmentKind, TenantStatus, TrialState, same_kind, same_sector, sector_word,
}
use dsx_control_plane.Db.Rows.{
  Template, Tenant, ProvisioningJob, CleanupJob, Payload, word, text as txt, count,
}
use dsx_control_plane.Http.{Env, Request, read_json, is_admin}
use dsx_control_plane.Http.Response.{Response, error_with, trial, trials, fail, settle, commit}
use dsx_control_plane.Provisioning.Placement.{select_placement_node}
use dsx_control_plane.Provisioning.Tenants.{admin_audit, job_event}
use dsx_control_plane.Provisioning.Retry.{code_value}
use dsx_control_plane.Provisioning.Jobs.{
  newest_first, placement_candidates, requirements, insert_job, new_job,
}
use dsx_control_plane.Cleanup.Jobs.{cleanup_of_tenant}
use dsx_control_plane.Trials.Hostname.{trial_hostname}
use dsx_control_plane.Trials.Inputs.{TrialRequestInput, parse_trial_request_input}

abbrev pub trial_pool : Text
trial_pool = text "trial"

abbrev pub has_key : Option Text → Text → Bool
has_key none k = false
has_key (some s) k = s == k

abbrev pub is_trial_of : Text → Tenant → Bool
is_trial_of key t =
    same_kind t.environment_kind EnvironmentKind.trial && has_key t.trial_request_key key

unfoldable pub trial_by_request_key : Db → Text → Option Tenant
unfolding find same_kind ◌==◌
trial_by_request_key db key = find (is_trial_of key) db.tenants

-- The clean-up columns of the query; a tenant has one clean-up at most.
abbrev pub with_cleanup : Db → Tenant → Tenant × Option CleanupJob
with_cleanup db t = (t, cleanup_of_tenant db t.id)

abbrev pub trial_view : Db → Option Tenant → Option (Tenant × Option CleanupJob)
trial_view db none = none
trial_view db (some t) = some (with_cleanup db t)

unfoldable pub find_job_for_tenant : Db → Text → Option ProvisioningJob
unfolding sort select ◌==◌
find_job_for_tenant db tenant_id =
    first (sort newest_first (select (λ j. j.tenant_id == tenant_id) db.provisioning_jobs))

abbrev serves : Sector → Template → Bool
serves sector p = same_sector p.sector sector && p.active

unfoldable pub template_for : Db → Sector → Option Template
unfolding find same_sector
template_for db sector = find (serves sector) db.templates

-- `INSERT INTO tenants`: the primary key, the unique slug and the unique request key.
unfoldable pub insert_trial : Tenant → Text → List Tenant → Option (List Tenant)
unfolding row find ◌==◌
insert_trial t key ts = elim (row (λ x. x.id) t.id ts) [
  | some _ ↦ none
  | none ↦ elim (row (λ x. x.slug) t.slug ts) [
    | some _ ↦ none
    | none ↦ elim (find (λ x. has_key x.trial_request_key key) ts) [
      | some _ ↦ none
      | none ↦ some (ts ++ t ∷ [])
    ]
  ]
]

abbrev pub new_trial : TrialRequestInput → Text → Text → Option Text → ℕ → Tenant
new_trial input id node_id hostname now = record {
  id = id;
  name = input.name;
  slug = input.slug;
  sector = input.sector;
  environment_kind = EnvironmentKind.trial;
  status = TenantStatus.provisioning;
  assigned_node_id = some node_id;
  database_name = none;
  trial_state = some TrialState.provisioning;
  trial_request_key = some input.idempotency_key;
  trial_requested_at = some now;
  trial_started_at = none;
  trial_expires_at = none;
  trial_expired_at = none;
  public_hostname = hostname;
  created_at = now;
  updated_at = now;
}

-- What a request has found, once every test has passed.
pub record TrialPlan : Type 0 where
  pub input : TrialRequestInput
  pub template : Template
  pub node_id : Text

abbrev pub planned_job : TrialPlan → Text → Text → ℕ → ProvisioningJob
planned_job p tenant_id job_id now =
    new_job job_id tenant_id p.template.id p.node_id trial_pool p.input.idempotency_key now

abbrev trial_payload : TrialPlan → Payload
trial_payload p =
    ("node_id", txt p.node_id)
    ∷ ("pool", txt trial_pool)
    ∷ ("template_id", txt p.template.id)
    ∷ ("environment_kind", word "trial")
    ∷ []

abbrev request_payload : TrialPlan → Option Text → Payload
request_payload p hostname =
    ("slug", txt p.input.slug)
    ∷ ("sector", word (sector_word p.input.sector))
    ∷ ("duration_days", count trial_duration_days)
    ∷ ("node_id", txt p.node_id)
    ∷ ("public_hostname", code_value hostname)
    ∷ []

abbrev pub with_trial :
    TrialPlan → Text → Text → Option Text → ℕ → List Tenant → List ProvisioningJob → Db → Db
with_trial p tenant_id job_id hostname now ts js db = record db {
  tenants = ts;
  provisioning_jobs = js;
  provisioning_job_events =
      db.provisioning_job_events
      ++ job_event job_id "provisioning.queued" none "queued" [] now
        ∷ job_event job_id "provisioning.placed" (some "queued") "placed" (trial_payload p) now
        ∷ [];
  audit_events =
      db.audit_events
      ++ admin_audit "trial.request.created" "tenant" tenant_id (request_payload p hostname) now
        ∷ admin_audit "provisioning.job.created" "provisioning_job" job_id (trial_payload p) now
        ∷ [];
}

-- The batch of `createTrial`.
unfoldable pub add_trial : TrialPlan → Text → Text → Option Text → ℕ → Db → Option Db
unfolding insert_trial insert_job
add_trial p tenant_id job_id hostname now db =
    elim (insert_trial (new_trial p.input tenant_id p.node_id hostname now) p.input.idempotency_key
      db.tenants) [
        | none ↦ none
        | some ts ↦ elim (insert_job (planned_job p tenant_id job_id now) db.provisioning_jobs) [
          | none ↦ none
          | some js ↦ some (with_trial p tenant_id job_id hostname now ts js db)
        ]
      ]

abbrev pub replayed : Db → Tenant → Response
replayed db t = record {
  status = 200;
  body = trial (some (with_cleanup db t)) (find_job_for_tenant db t.id) true;
}

-- The reads and the early returns, after the input is parsed.
unfoldable pub check_trial_input : Env → TrialRequestInput → ℕ → Db → Result Response TrialPlan
unfolding trial_by_request_key find_job_for_tenant template_for row ◌==◌
check_trial_input env input now db = do
  stop_at (trial_by_request_key db input.idempotency_key) (replayed db)
  stop_at (row (λ t. t.slug) input.slug db.tenants) (λ owner. record {
    status = 409;
    body = error_with "tenant_slug_exists" (("tenant_id", txt owner.id) ∷ []);
  })
  template ← or_else (template_for db input.sector) (record {
    status = 404;
    body =
        error_with "active_template_not_found" (("sector", word (sector_word input.sector)) ∷ []);
  })
  placement ←
      or_else
        (select_placement_node env.json_parse (requirements template trial_pool) now
          (offline_seconds env.node_offline_seconds) (placement_candidates db))
        (record {
          status = 409;
          body = error_with "no_eligible_trial_node" (("pool", txt trial_pool) ∷ []);
        })
  ok (record { input = input; template = template; node_id = placement.id })

unfoldable pub parse_trial_request : Env → Request → Result Response TrialRequestInput
parse_trial_request env request = do
  ensure (is_admin env request) (fail 401 "unauthorized")
  body ← or_else (read_json request) (fail 400 "invalid_json")
  map_err (fail 400) (parse_trial_request_input body)

unfoldable pub check_trial : Env → Request → ℕ → Db → Result Response TrialPlan
check_trial env request now db = do
  input ← parse_trial_request env request
  check_trial_input env input now db

unfoldable pub create_trial : Env → Request → Text → Text → ℕ → Db → Response × Db
create_trial env request tenant_id job_id now db = settle db do
  p ← check_trial env request now db
  commit (add_trial p tenant_id job_id (trial_hostname p.input.slug env.trial_base_domain) now db)
      (λ after. record {
        status = 201;
        body =
            trial (trial_view after (trial_by_request_key after p.input.idempotency_key))
              (find_job_for_tenant after tenant_id) false;
      })

abbrev newest_trial_first : Tenant → Tenant → Bool
newest_trial_first a b = not (leb a.created_at b.created_at)

unfoldable pub list_trials : Env → Request → Db → Response
unfolding sort select same_kind
list_trials env request db =
    if is_admin env request
    then record {
      status = 200;
      body = trials (
          map (with_cleanup db) (
            take 500 (
              sort newest_trial_first
                (select (λ t. same_kind t.environment_kind EnvironmentKind.trial) db.tenants))));
    }
    else fail 401 "unauthorized"
