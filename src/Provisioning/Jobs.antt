-- ===== src/Provisioning/Jobs.antt =====
-- Provisioning jobs in the admin routes of deploy/cloudflare/src/provisioning.ts.
use mathlib.Core.Option
use dsx_control_plane.Base.{
  ℕ, Bool, true, false, not, ◌&&◌, Option, none, some, List, [], ◌∷◌, ◌++◌, map, if◌then◌else◌,
  Result, ok, ◌>>=◌, ◌>>◌, ensure, or_else, stop_at, map_err, leb,
}
use dsx_control_plane.Base.Lists.{find, select, count_where, take}
use dsx_control_plane.Text.{Text, ◌==◌}
use dsx_control_plane.Time.{offline_seconds}
use dsx_control_plane.Table.{always, row, update}
use dsx_control_plane.Table.Order.{sort}
use dsx_control_plane.Db.{Db, template_of, tenant_of, job_of}
use dsx_control_plane.Db.States.{
  TenantStatus, pending, provisioning, decommissioned, failed, placed, same_sector, same_status,
  status_word,
}
use dsx_control_plane.Db.Rows.{
  Template, Tenant, ProvisioningJob, JobEvent, Payload, word, text as txt,
}
use dsx_control_plane.Http.{Env, Request, read_json, is_admin}
use dsx_control_plane.Http.Response.{
  Response, error_with, job, job_events, jobs, fail, settle, commit,
}
use dsx_control_plane.Provisioning.Inputs.{ProvisioningJobInput, parse_provisioning_job_input}
use dsx_control_plane.Provisioning.Placement.{
  PlacementCandidate, PlacementRequirements, select_placement_node,
}
use dsx_control_plane.Provisioning.Tenants.{admin_audit, job_event}

abbrev pub by_key : Text → Text → ProvisioningJob → Bool
by_key tenant_id key j = j.tenant_id == tenant_id && j.idempotency_key == key

abbrev pub job_by_key : Db → Text → Text → Option ProvisioningJob
job_by_key db tenant_id key = find (by_key tenant_id key) db.provisioning_jobs

abbrev active_only : Option Template → Option Template
active_only none = none
active_only (some p) = if p.active then some p else none

abbrev pub active_template : Db → Text → Option Template
active_template db k = active_only (template_of db k)

unfoldable pub is_provisionable : TenantStatus → Bool
is_provisionable pending = true
is_provisionable failed = true
is_provisionable _ = false

abbrev is_text : Option Text → Text → Bool
is_text none k = false
is_text (some s) k = s == k

unfoldable pub occupies : Text → Tenant → Bool
unfolding ◌==◌ same_status
occupies node_id t = is_text t.assigned_node_id node_id && not (same_status t.status decommissioned)

-- `COUNT(t.id) AS tenant_count`
unfoldable pub tenant_count : Db → Text → ℕ
unfolding occupies count_where
tenant_count db node_id = count_where (occupies node_id) db.tenants

unfoldable pub placement_candidates : Db → List PlacementCandidate
unfolding tenant_count
placement_candidates db =
    map (λ n. record { node = n; tenant_count = tenant_count db n.id }) db.nodes

abbrev pub requirements : Template → Text → PlacementRequirements
requirements p pool = record {
  required_role = p.required_role;
  min_memory_mb = p.min_memory_mb;
  min_disk_gb = p.min_disk_gb;
  pool = pool;
}

-- `INSERT INTO provisioning_jobs`: the primary key, and UNIQUE (tenant_id, idempotency_key).
unfoldable pub insert_job : ProvisioningJob → List ProvisioningJob → Option (List ProvisioningJob)
unfolding row find ◌==◌
insert_job j js = elim (row (λ x. x.id) j.id js) [
  | some _ ↦ none
  | none ↦ elim (find (by_key j.tenant_id j.idempotency_key) js) [
    | some _ ↦ none
    | none ↦ some (js ++ j ∷ [])
  ]
]

abbrev pub new_job : Text → Text → Text → Text → Text → Text → ℕ → ProvisioningJob
new_job id tenant_id template_id node_id pool key now = record {
  id = id;
  tenant_id = tenant_id;
  template_id = template_id;
  node_id = some node_id;
  pool = pool;
  state = placed;
  idempotency_key = key;
  attempt = 0;
  error_code = none;
  created_at = now;
  updated_at = now;
  started_at = none;
  finished_at = none;
}

-- The batch of `createProvisioningJob`.
unfoldable pub place_job : ProvisioningJob → Text → Template → Db → Option Db
unfolding insert_job update
place_job j node_id p db =
    let payload : Payload =
      ("node_id", txt node_id)
      ∷ ("pool", txt j.pool)
      ∷ ("required_role", txt p.required_role)
      ∷ ("template_id", txt p.id)
      ∷ [] in
    Option.map
      (λ js. record db {
        provisioning_jobs = js;
        tenants =
            update (λ t. t.id) j.tenant_id always
              (λ t. record t {
                status = provisioning;
                assigned_node_id = some node_id;
                updated_at = j.created_at;
              })
              db.tenants;
        provisioning_job_events =
            db.provisioning_job_events
            ++ job_event j.id "provisioning.queued" none "queued" [] j.created_at
              ∷ job_event j.id "provisioning.placed" (some "queued") "placed" payload j.created_at
              ∷ [];
        audit_events =
            db.audit_events
            ++ admin_audit "provisioning.job.created" "provisioning_job" j.id payload j.created_at
              ∷ [];
      })
      (insert_job j db.provisioning_jobs)

-- What a request for a new job comes to, once every test has passed: the row, and its template.
pub record Placed : Type 0 where
  pub created : ProvisioningJob
  pub node_id : Text
  pub template : Template

-- The reads and the early returns of `createProvisioningJob`, after the input is parsed.
unfoldable pub check_job_input : Env → ProvisioningJobInput → Text → ℕ → Db → Result Response Placed
check_job_input env input job_id now db = do
  stop_at (job_by_key db input.tenant_id input.idempotency_key)
      (λ existing. record { status = 200; body = job (some existing) true })
  owner ← or_else (tenant_of db input.tenant_id) (fail 404 "tenant_not_found")
  ensure (is_provisionable owner.status) (record {
    status = 409;
    body =
        error_with "tenant_not_provisionable"
          (("tenant_status", word (status_word owner.status)) ∷ []);
  })
  template ← or_else (active_template db input.template_id) (fail 404 "active_template_not_found")
  ensure (same_sector template.sector owner.sector) (fail 409 "template_sector_mismatch")
  placement ←
      or_else
        (select_placement_node env.json_parse (requirements template input.pool) now
          (offline_seconds env.node_offline_seconds) (placement_candidates db))
        (record {
          status = 409;
          body = error_with "no_eligible_node" (("pool", txt input.pool) ∷ []);
        })
  ok (record {
    created = new_job job_id owner.id template.id placement.id input.pool input.idempotency_key now;
    node_id = placement.id;
    template = template;
  })

unfoldable pub parse_job_request : Env → Request → Result Response ProvisioningJobInput
parse_job_request env request = do
  ensure (is_admin env request) (fail 401 "unauthorized")
  body ← or_else (read_json request) (fail 400 "invalid_json")
  map_err (fail 400) (parse_provisioning_job_input body)

unfoldable pub check_job_request : Env → Request → Text → ℕ → Db → Result Response Placed
check_job_request env request job_id now db = do
  input ← parse_job_request env request
  check_job_input env input job_id now db

unfoldable pub create_provisioning_job : Env → Request → Text → ℕ → Db → Response × Db
create_provisioning_job env request job_id now db = settle db do
  p ← check_job_request env request job_id now db
  commit (place_job p.created p.node_id p.template db)
      (λ after. record { status = 201; body = job (job_of after job_id) false })

abbrev pub newest_first : ProvisioningJob → ProvisioningJob → Bool
newest_first a b = not (leb a.created_at b.created_at)

unfoldable pub list_provisioning_jobs : Env → Request → Db → Response
unfolding sort
list_provisioning_jobs env request db =
    if is_admin env request
    then record { status = 200; body = jobs (take 200 (sort newest_first db.provisioning_jobs)) }
    else fail 401 "unauthorized"

abbrev earlier : JobEvent → JobEvent → Bool
earlier a b = not (leb b.created_at a.created_at)

unfoldable pub get_provisioning_job : Env → Request → Text → Db → Response
unfolding sort select
get_provisioning_job env request job_id db =
    if is_admin env request
    then elim (job_of db job_id) [
      | none ↦ fail 404 "provisioning_job_not_found"
      | some j ↦ record {
        status = 200;
        body =
            job_events j (
              take 200
                (sort earlier (select (λ e. e.job_id == job_id) db.provisioning_job_events)));
      }
    ]
    else fail 401 "unauthorized"
