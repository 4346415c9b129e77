-- ===== src/Conversions/Placed.antt =====
-- What a placement of deploy/cloudflare/src/productionPlacement.ts has found and leaves.
pub mod Checks
use mathlib.Core.List.{Memᴰ}
use mathlib.Core.Path.{subst}
use dsx_control_plane.Base.{
  ℕ, ◌≡◌, ◌≢◌, ◌⊎◌, refl, sym, ap, ◌∙◌, inl, inr, Bool, true, false, Option, none, some, List, [],
  ◌∷◌, arith, ok, err, Option-cases, Result-cases, Bool-cases, >>=-eq-ok, Result, ensure, or_else,
  map_err, ◌>>◌, ◌>>=◌,
}
use dsx_control_plane.Text.{Text, ==_iff, ==_refl}
use dsx_control_plane.Time.{offline_seconds}
use dsx_control_plane.Table.{row, key-row}
use dsx_control_plane.Db.{Db, node_of, tenant_of, conversion_of}
use dsx_control_plane.Db.States.{
  EnvironmentKind, TenantStatus, ConversionState, ConversionMode, ProvisioningState, same_sector,
  same_state, same_kind, same_status, same_conversion, is_clean,
}
use dsx_control_plane.Db.Rows.{Node, Template, Tenant, ProvisioningJob, Conversion}
use dsx_control_plane.Http.{Env, Request, read_json, is_admin}
use dsx_control_plane.Http.Response.{Response, fail}
use dsx_control_plane.Provisioning.Placement.{PlacementCandidate, select_placement_node}
use dsx_control_plane.Provisioning.Placement.Choice.{IsEligible, select_placement_node-IsBest}
use dsx_control_plane.Provisioning.Jobs.{job_by_key, active_template, requirements}
use dsx_control_plane.Provisioning.Effects.{set_row}
use dsx_control_plane.Provisioning.Operations.Report.{coalesce}
use dsx_control_plane.Conversions.Inputs.{production_execution_enabled}
use dsx_control_plane.Conversions.Approval.{production_pool, conversion_key, of_trial}
use dsx_control_plane.Conversions.Placement.{
  ProductionPlacement, same_id, check_node, candidate, is_placeable, is_approved,
  started_conversion, placed_job, placed_tenant, place_target, check_target, check_placement_input,
  check_node, parse_placement, check_placement, place_production,
}
use dsx_control_plane.Table.{row-update, when, find-update}
use dsx_control_plane.Provisioning.Jobs.{by_key}
use dsx_control_plane.Conversions.Placement.{is_pending}
use dsx_control_plane.Conversions.Effects.{conversion-place_target}
use dsx_control_plane.Conversions.Placed.Checks.{
  Admitted, node_id_lem, check_placement_input-parts, check_placement_input-Admitted,
}

-- What a placement that is made has found and leaves.
pub record IsPlaced (env : Env) (r : Request) (trial conversion : Text) (now : ℕ) (db after : Db)
    : Type 0 where
  pub plan : ProductionPlacement
  pub asked : parse_placement env r ≡ ok plan.node_id
  pub enabled : production_execution_enabled env.production_provisioning_enabled ≡ true
  pub admitted : Admitted env trial conversion now db plan
  pub job :
      job_by_key after plan.target.id (conversion_key plan.request.id)
      ≡ some (record plan.job {
        node_id = some plan.node_id;
        state = ProvisioningState.placed;
        updated_at = now;
      })
  pub tenant :
      tenant_of after plan.target.id
      ≡ some (record plan.target {
        assigned_node_id = some plan.node_id;
        status = TenantStatus.provisioning;
        updated_at = now;
      })
  pub request :
      conversion_of after conversion
      ≡ some (record plan.request {
        state = ConversionState.provisioning;
        started_at = coalesce plan.request.started_at now;
        updated_at = now;
      })
  pub other_tenants : (i : Text) → i ≢ plan.target.id → tenant_of after i ≡ tenant_of db i
  pub other_requests : (i : Text) → i ≢ conversion → conversion_of after i ≡ conversion_of db i

module _ (env : Env) (trial conversion : Text) (now : ℕ) (db : Db) (p : ProductionPlacement)
    (a : Admitted env trial conversion now db p) where
  place_target-job :
      job_by_key (place_target p now db) p.target.id (conversion_key p.request.id)
      ≡ some (placed_job p.node_id now p.job)
  unfolding place_target is_placeable same_state
  place_target-job = ground (
    arith,
    find-update (λ j. j.id) is_placeable (placed_job p.node_id now) (λ j. refl)
        (by_key p.target.id (conversion_key p.request.id)) (λ j. refl) p.job.id db.provisioning_jobs
        {r = p.job} a.job refl,
    a.queued,
    a.unplaced,
    a.pool,
    ==_refl production_pool,
  )

  tenant-place_target :
      (i : Text)
      → tenant_of (place_target p now db) i
        ≡ set_row p.target.id i is_pending (placed_tenant p.node_id now) (tenant_of db i)
  unfolding place_target
  tenant-place_target i =
      row-update (λ t. t.id) is_pending (placed_tenant p.node_id now) (λ t. refl) i p.target.id
        db.tenants

  place_target-IsPlaced :
      production_execution_enabled env.production_provisioning_enabled ≡ true
      → (r : Request) → parse_placement env r ≡ ok p.node_id
      → IsPlaced env r trial conversion now db (place_target p now db)
  unfolding is_pending same_kind same_status is_approved same_conversion
  place_target-IsPlaced enabled r asked =
      let same : p.request.id ≡ conversion =
        key-row (λ c. c.id) conversion db.trial_conversion_requests a.found in
      record {
        plan = p;
        asked = asked;
        enabled = enabled;
        admitted = a;
        job = place_target-job;
        tenant = ground (
          arith,
          tenant-place_target p.target.id,
          a.tenant,
          a.kind,
          a.pending,
          ==_refl p.target.id,
        );
        request = ground (
          arith,
          conversion-place_target conversion p now db,
          a.found,
          a.approved,
          ==_iff p.request.id conversion,
        );
        other_tenants = λ i n. ground (arith, tenant-place_target i, ==_iff p.target.id i);
        other_requests =
            λ i n. ground (arith, conversion-place_target i p now db, ==_iff p.request.id i);
      }

abbrev NotCreated : Response → Type 0
NotCreated e = e.status ≢ 201

check_node-refused :
    (env : Env) (j : ProvisioningJob) (t : Tenant) (node_id : Text) (now : ℕ) (db : Db)
    (e : Response)
    → check_node env j t node_id now db ≡ err e
    → NotCreated e
unfolding check_node
check_node-refused env j t node_id now db e h = ground arith

check_target-refused :
    (node_id trial conversion : Text) (db : Db) (e : Response)
    → check_target node_id trial conversion db ≡ err e
    → NotCreated e
unfolding check_target
check_target-refused node_id trial conversion db e h = ground arith

check_placement_input-refused :
    (env : Env) (node_id trial conversion : Text) (now : ℕ) (db : Db) (e : Response)
    → check_placement_input env node_id trial conversion now db ≡ err e
    → NotCreated e
unfolding check_placement_input
check_placement_input-refused env node_id trial conversion now db e h =
    elim (Result-cases (check_target node_id trial conversion db)) [
      | inl (f, k) ↦ ground (arith, check_target-refused node_id trial conversion db f k)
      | inr (p, k) ↦ elim (Result-cases (check_node env p.job p.target node_id now db)) [
        | inl (f, l) ↦ ground (arith, check_node-refused env p.job p.target node_id now db f l)
        | inr (_, l) ↦ absurd (ground arith)
      ]
    ]

parse_placement-refused :
    (env : Env) (r : Request) (e : Response) → parse_placement env r ≡ err e → NotCreated e
unfolding parse_placement
parse_placement-refused env r e h = ground arith

check_placement-refused :
    (env : Env) (r : Request) (trial conversion : Text) (now : ℕ) (db : Db) (e : Response)
    → check_placement env r trial conversion now db ≡ err e
    → e.status ≢ 201
unfolding check_placement
check_placement-refused env r trial conversion now db e h =
    elim (Result-cases (parse_placement env r)) [
      | inl (f, k) ↦ ground (arith, parse_placement-refused env r f k)
      | inr (node_id, k) ↦
          check_placement_input-refused env node_id trial conversion now db e
            (rw (check_placement, k) at h)
    ]

parse_placement-enabled :
    (env : Env) (r : Request) (node_id : Text)
    → parse_placement env r ≡ ok node_id
    → production_execution_enabled env.production_provisioning_enabled ≡ true
unfolding parse_placement
parse_placement-enabled env r node_id h = ground arith

check_placement-parsed :
    (env : Env) (r : Request) (trial conversion : Text) (now : ℕ) (db : Db)
    (p : ProductionPlacement)
    → check_placement env r trial conversion now db ≡ ok p
    → (parse_placement env r ≡ ok p.node_id)
      × (production_execution_enabled env.production_provisioning_enabled ≡ true)
      × Admitted env trial conversion now db p
unfolding check_placement
check_placement-parsed env r trial conversion now db p h =
    let (node_id, parsed, checked) = >>=-eq-ok (parse_placement env r) _ h in
    let (target, _) = check_placement_input-parts env node_id trial conversion now db p checked in
    let same = node_id_lem node_id trial conversion db p target in
    (
      parsed ∙ ap ok (sym same),
      parse_placement-enabled env r node_id parsed,
      check_placement_input-Admitted env node_id trial conversion now db p checked,
    )

-- Whatever the request to place a production target: either it is not answered by 201 and changes
-- nothing; or the switch for production is on, the conversion belongs to the trial, is a clean one
-- and was approved, its job was queued without a node in the production pool, its target was a
-- pending production tenant, and the named node is eligible for the job's active template. Then the
-- job is placed on the node, the target is being provisioned there, the conversion too, and no
-- other tenant or conversion has changed.
pub place_production-IsPlaced :
    (env : Env) (r : Request) (trial conversion : Text) (now : ℕ) (db : Db)
    → (((place_production env r trial conversion now db).0.status ≢ 201)
        × ((place_production env r trial conversion now db).1 ≡ db))
      ⊎ (((place_production env r trial conversion now db).0.status ≡ 201)
          × IsPlaced env r trial conversion now db
              (place_production env r trial conversion now db).1)
unfolding place_production
place_production-IsPlaced env r trial conversion now db =
    elim (Result-cases (check_placement env r trial conversion now db)) [
      | inl (e, h) ↦ inl (
          rw (place_production, h)
            (check_placement-refused env r trial conversion now db e h, refl))
      | inr (p, h) ↦
          let (parsed, enabled, admitted) =
            check_placement-parsed env r trial conversion now db p h in
          inr (
            rw (place_production, h)
              (refl, place_target-IsPlaced env trial conversion now db p admitted enabled r parsed))
    ]
