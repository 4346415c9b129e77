-- ===== src/Conversions/Placed/Checks.antt =====
-- What the tests of a placement in deploy/cloudflare/src/productionPlacement.ts establish.
use mathlib.Core.List.{Memᴰ}
use mathlib.Core.Path.{subst}
use dsx_control_plane.Base.{
  ℕ, ◌≡◌, refl, sym, ap, ◌∙◌, inl, inr, true, Option, none, some, [], ◌∷◌, arith, ok, Option-cases,
  Result-cases,
}
use dsx_control_plane.Text.{Text, ==_iff}
use dsx_control_plane.Time.{offline_seconds}
use dsx_control_plane.Table.{key-row}
use dsx_control_plane.Db.{Db, node_of, tenant_of, conversion_of}
use dsx_control_plane.Db.States.{
  EnvironmentKind, TenantStatus, ConversionState, ConversionMode, ProvisioningState, same_sector,
  same_state, same_kind, same_status, same_conversion, is_clean,
}
use dsx_control_plane.Db.Rows.{Node, Template, Tenant, ProvisioningJob}
use dsx_control_plane.Http.{Env}
use dsx_control_plane.Provisioning.Placement.{PlacementCandidate, select_placement_node}
use dsx_control_plane.Provisioning.Placement.Choice.{IsEligible, select_placement_node-IsBest}
use dsx_control_plane.Provisioning.Jobs.{job_by_key, active_template, requirements}
use dsx_control_plane.Cleanup.Jobs.{non_empty}
use dsx_control_plane.Conversions.Approval.{production_pool, conversion_key}
use dsx_control_plane.Conversions.Placement.{
  ProductionPlacement, same_id, check_node, candidate, is_placeable, check_target,
  check_placement_input,
}

-- What the tests before the batch have established.
pub record Admitted (env : Env) (trial conversion : Text) (now : ℕ) (db : Db)
    (p : ProductionPlacement) : Type 0 where
  pub found : conversion_of db conversion ≡ some p.request
  pub own : p.request.trial_tenant_id ≡ trial
  pub clean : p.request.mode ≡ ConversionMode.clean_production
  pub approved : p.request.state ≡ ConversionState.approved
  pub target : non_empty p.request.target_tenant_id ≡ some p.target.id
  pub tenant : tenant_of db p.target.id ≡ some p.target
  pub kind : p.target.environment_kind ≡ EnvironmentKind.production
  pub pending : p.target.status ≡ TenantStatus.pending
  pub job : job_by_key db p.target.id (conversion_key p.request.id) ≡ some p.job
  pub queued : p.job.state ≡ ProvisioningState.queued
  pub unplaced : p.job.node_id ≡ none
  pub pool : p.job.pool ≡ production_pool
  pub node : Node
  pub template : Template
  pub known : node_of db p.node_id ≡ some node
  pub template_found : active_template db p.job.template_id ≡ some template
  pub sector : template.sector ≡ p.target.sector
  pub eligible :
      IsEligible env.json_parse
        (requirements template production_pool)
        now
        (offline_seconds env.node_offline_seconds)
        (candidate db node)

only-listed : (c d : PlacementCandidate) → Memᴰ c (d ∷ []) → c ≡ d
only-listed c d (Memᴰ.head p) = p
only-listed c d (Memᴰ.tail m) = absurd (elim m [ ])

module _ (env : Env) (j : ProvisioningJob) (t : Tenant) (node_id : Text) (now : ℕ) (db : Db) where
  same_id-eq :
      (o : Option PlacementCandidate) (n : Node)
      → same_id o node_id ≡ true
      → (c : PlacementCandidate) × (o ≡ some c)
  same_id-eq none n h = absurd (ground arith)
  same_id-eq (some c) n h = (c, refl)

  abbrev EligibleOn : Template → Node → Type 0
  EligibleOn template n =
      IsEligible env.json_parse (requirements template production_pool) now
        (offline_seconds env.node_offline_seconds) (candidate db n)

  chosen-eligible :
      (template : Template) (n : Node)
      → same_id
          (select_placement_node env.json_parse
            (requirements template production_pool)
            now
            (offline_seconds env.node_offline_seconds)
            (candidate db n ∷ []))
          node_id
        ≡ true
      → EligibleOn template n
  chosen-eligible template n h =
      let (c, e) = same_id-eq _ n h in
      let best =
        select_placement_node-IsBest env.json_parse (requirements template production_pool) now
          (offline_seconds env.node_offline_seconds) (candidate db n ∷ []) c e in
      subst
        (IsEligible env.json_parse (requirements template production_pool) now
          (offline_seconds env.node_offline_seconds))
        (only-listed c (candidate db n) best.listed) best.eligible

  check_node-Fits :
      check_node env j t node_id now db ≡ ok tt
      → (n : Node) × (template : Template) × (node_of db node_id ≡ some n)
        × (active_template db j.template_id ≡ some template)
        × (template.sector ≡ t.sector)
        × EligibleOn template n
  unfolding check_node same_sector
  check_node-Fits h = elim (Option-cases (node_of db node_id)) [
    | inl e ↦ absurd (ground arith)
    | inr (n, e) ↦ elim (Option-cases (active_template db j.template_id)) [
      | inl f ↦ absurd (ground arith)
      | inr (template, f) ↦
          (n, template, e, f, ground arith, chosen-eligible template n (ground arith))
    ]
  ]

module _ (node_id trial conversion : Text) (db : Db) (p : ProductionPlacement)
    (h : check_target node_id trial conversion db ≡ ok p) where
  found_lem : conversion_of db conversion ≡ some p.request
  unfolding check_target
  found_lem = ground (arith, h)

  own_lem : p.request.trial_tenant_id ≡ trial
  unfolding check_target
  own_lem = ground (arith, h, ==_iff p.request.trial_tenant_id trial)

  clean_lem : p.request.mode ≡ ConversionMode.clean_production
  unfolding check_target is_clean
  clean_lem = ground (arith, h)

  approved_lem : p.request.state ≡ ConversionState.approved
  unfolding check_target same_conversion
  approved_lem = ground (arith, h)

  pending_lem : p.target.status ≡ TenantStatus.pending
  unfolding check_target same_status
  pending_lem = ground (arith, h)

  placeable_lem : is_placeable p.job ≡ true
  unfolding check_target
  placeable_lem = ground (arith, h)

  kind_lem : p.target.environment_kind ≡ EnvironmentKind.production
  unfolding check_target same_kind
  kind_lem = ground (arith, h)

  -- The target's id as the conversion names it.
  target_lem :
      (target_id : Text) × (non_empty p.request.target_tenant_id ≡ some target_id)
      × (tenant_of db target_id ≡ some p.target)
      × (job_by_key db target_id (conversion_key p.request.id) ≡ some p.job)
  unfolding check_target
  target_lem = elim (Option-cases (non_empty p.request.target_tenant_id)) [
    | inl e ↦ absurd (ground (arith, h))
    | inr (target_id, e) ↦ (target_id, e, ground (arith, h), ground (arith, h))
  ]

  pub node_id_lem : p.node_id ≡ node_id
  unfolding check_target
  node_id_lem = ground (arith, h)

module _ (env : Env) (node_id trial conversion : Text) (now : ℕ) (db : Db)
    (p : ProductionPlacement) where
  pub check_placement_input-parts :
      check_placement_input env node_id trial conversion now db ≡ ok p
      → (check_target node_id trial conversion db ≡ ok p)
        × (check_node env p.job p.target node_id now db ≡ ok tt)
  unfolding check_placement_input
  check_placement_input-parts h = elim (Result-cases (check_target node_id trial conversion db)) [
    | inl (e, k) ↦ absurd (ground (arith, h))
    | inr (q, k) ↦ (ground (arith, h), ground (arith, h))
  ]

  pub check_placement_input-Admitted :
      check_placement_input env node_id trial conversion now db ≡ ok p
      → Admitted env trial conversion now db p
  unfolding is_placeable same_state
  check_placement_input-Admitted h =
      let (h', checked) = check_placement_input-parts h in
      let (target_id, named, tenant, job) = target_lem node_id trial conversion db p h' in
      let same_node = node_id_lem node_id trial conversion db p h' in
      let placeable = placeable_lem node_id trial conversion db p h' in
      let (n, template, known, template_found, sector, eligible) =
        check_node-Fits env p.job p.target node_id now db checked in
      let same : p.target.id ≡ target_id = key-row (λ t. t.id) target_id db.tenants tenant in
      record {
        found = found_lem node_id trial conversion db p h';
        own = own_lem node_id trial conversion db p h';
        clean = clean_lem node_id trial conversion db p h';
        approved = approved_lem node_id trial conversion db p h';
        target = named ∙ ap some (sym same);
        tenant = subst (λ x. tenant_of db x ≡ some p.target) (sym same) tenant;
        kind = kind_lem node_id trial conversion db p h';
        pending = pending_lem node_id trial conversion db p h';
        job =
            subst (λ x. job_by_key db x (conversion_key p.request.id) ≡ some p.job) (sym same) job;
        queued = ground (arith, placeable);
        unplaced = ground (arith, placeable);
        pool = ground (arith, placeable, ==_iff p.job.pool production_pool);
        node = n;
        template = template;
        known = subst (λ x. node_of db x ≡ some n) (sym same_node) known;
        template_found = template_found;
        sector = sector;
        eligible = eligible;
      }
