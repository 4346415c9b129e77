-- ===== src/Conversions/Approved.antt =====
-- What an approval of deploy/cloudflare/src/trialConversion.ts has found and leaves, and the same
-- approval sent again.
use dsx_control_plane.Base.{
  ℕ, ◌≡◌, ◌≢◌, ◌⊎◌, refl, inl, inr, true, none, some, arith, if◌then◌else◌, ok, err, Option-cases,
  Result-cases, ◌++◌,
}
use dsx_control_plane.Text.{Text, text, ◌==◌, ==_iff, ==_refl}
use dsx_control_plane.Text.Patterns.{safe_slug}
use dsx_control_plane.Json.{Fields}
use dsx_control_plane.Table.{row, or_row, key-row, row-append}
use dsx_control_plane.Db.{Db, tenant_of, job_of, conversion_of}
use dsx_control_plane.Db.States.{
  EnvironmentKind, TenantStatus, ProvisioningState, ConversionState, ConversionMode,
  same_conversion, is_clean,
}
use dsx_control_plane.Http.{Env, Request, read_json, is_admin}
use dsx_control_plane.Http.Response.{Response}
use dsx_control_plane.Provisioning.Tenants.{insert_tenant}
use dsx_control_plane.Conversions.Inputs.{
  TrialConversionApprovalInput, parse_trial_conversion_approval_input,
}
use dsx_control_plane.Conversions.Requests.{trial_tenant}
use dsx_control_plane.Conversions.Approval.{
  Approval, is_requested, target_tenant, approve, latest_template, check_approval_body,
  check_approval, approve_clean_production_conversion,
}
use dsx_control_plane.Conversions.Effects.{job-approve, conversion-approve}

-- What the tests before the batch have established.
pub record Checked (trial conversion : Text) (db : Db) (a : Approval) : Type 0 where
  pub trial_found : trial_tenant db trial ≡ some a.trial
  pub found : conversion_of db conversion ≡ some a.request
  pub own : a.request.trial_tenant_id ≡ trial
  pub requested : a.request.state ≡ ConversionState.requested
  pub clean : a.request.mode ≡ ConversionMode.clean_production
  pub safe : safe_slug a.input.production_slug ≡ true
  pub free : row (λ t. t.slug) a.input.production_slug db.tenants ≡ none
  pub template : latest_template db a.trial.sector ≡ some a.template

parse_trial_conversion_approval_input-safe :
    (body : Fields) (name slug id : Text) (input : TrialConversionApprovalInput)
    → parse_trial_conversion_approval_input body name slug id ≡ ok input
    → safe_slug input.production_slug ≡ true
unfolding parse_trial_conversion_approval_input
parse_trial_conversion_approval_input-safe body name slug id input h = ground arith

module _ (body : Fields) (trial conversion : Text) (db : Db) where
  check_approval_body-parsed :
      (a : Approval)
      → check_approval_body body trial conversion db ≡ ok a
      → parse_trial_conversion_approval_input body a.trial.name a.trial.slug a.request.id
        ≡ ok a.input
  unfolding check_approval_body
  check_approval_body-parsed a h = ground arith

  check_approval_body-Checked :
      (a : Approval)
      → check_approval_body body trial conversion db ≡ ok a
      → Checked trial conversion db a
  unfolding check_approval_body same_conversion is_clean
  check_approval_body-Checked a h = record {
    trial_found = ground arith;
    found = ground arith;
    own = ground (arith, ==_iff a.request.trial_tenant_id trial);
    requested = ground arith;
    clean = ground arith;
    safe =
        parse_trial_conversion_approval_input-safe body a.trial.name a.trial.slug a.request.id
          a.input (check_approval_body-parsed a h);
    free = ground arith;
    template = ground arith;
  }

  check_approval_body-refused :
      (e : Response) → check_approval_body body trial conversion db ≡ err e → e.status ≢ 201
  unfolding check_approval_body
  check_approval_body-refused e h = ground arith

check_approval-refused :
    (env : Env) (r : Request) (trial conversion : Text) (db : Db) (e : Response)
    → check_approval env r trial conversion db ≡ err e
    → e.status ≢ 201
unfolding check_approval
check_approval-refused env r trial conversion db e h = elim (Option-cases (read_json r)) [
  | inl n ↦ ground arith
  | inr (body, n) ↦ ground (arith, check_approval_body-refused body trial conversion db e)
]

check_approval-body :
    (env : Env) (r : Request) (trial conversion : Text) (db : Db) (a : Approval)
    → check_approval env r trial conversion db ≡ ok a
    → (body : Fields) × (is_admin env r ≡ true)
      × (read_json r ≡ some body)
      × (check_approval_body body trial conversion db ≡ ok a)
unfolding check_approval
check_approval-body env r trial conversion db a h = elim (Option-cases (read_json r)) [
  | inl n ↦ absurd (ground arith)
  | inr (body, n) ↦ (body, ground arith, n, ground arith)
]

-- What an approval that is made has found and leaves.
pub record IsApproved (trial conversion target_id job_id : Text) (now : ℕ) (db after : Db)
    : Type 0 where
  pub plan : Approval
  pub checked : Checked trial conversion db plan
  pub request :
      conversion_of after conversion
      ≡ some (record plan.request {
        state = ConversionState.approved;
        target_tenant_id = some target_id;
        updated_at = now;
      })
  pub new_target : tenant_of db target_id ≡ none
  pub target :
      tenant_of after target_id
      ≡ some (record {
        id = target_id;
        name = plan.input.production_name;
        slug = plan.input.production_slug;
        sector = plan.trial.sector;
        environment_kind = EnvironmentKind.production;
        status = TenantStatus.pending;
        assigned_node_id = none;
        database_name = none;
        trial_state = none;
        trial_request_key = none;
        trial_requested_at = none;
        trial_started_at = none;
        trial_expires_at = none;
        trial_expired_at = none;
        public_hostname = none;
        created_at = now;
        updated_at = now;
      })
  pub new_job : job_of db job_id ≡ none
  pub job :
      job_of after job_id
      ≡ some (record {
        id = job_id;
        tenant_id = target_id;
        template_id = plan.template.id;
        node_id = none;
        pool = text "production";
        state = ProvisioningState.queued;
        idempotency_key = text "conversion:" ++ plan.request.id;
        attempt = 0;
        error_code = none;
        created_at = now;
        updated_at = now;
        started_at = none;
        finished_at = none;
      })
  pub other_tenants : (i : Text) → i ≢ target_id → tenant_of after i ≡ tenant_of db i
  pub other_requests : (i : Text) → i ≢ conversion → conversion_of after i ≡ conversion_of db i

module _ (a : Approval) (target_id job_id : Text) (now : ℕ) (db db' : Db)
    (h : approve a target_id job_id now db ≡ some db') where
  tenant-approve :
      (i : Text)
      → (tenant_of db target_id ≡ none)
        × (tenant_of db' i
            ≡ or_row
                (tenant_of db i)
                (if target_id == i then some (target_tenant a target_id now) else none))
  unfolding approve insert_tenant
  tenant-approve i = (
    ground (arith, h),
    ground (arith, h, row-append (λ t. t.id) i db.tenants (target_tenant a target_id now)),
  )

  approve-IsApproved :
      (trial conversion : Text)
      → Checked trial conversion db a
      → IsApproved trial conversion target_id job_id now db db'
  unfolding is_requested same_conversion
  approve-IsApproved trial conversion c =
      let same : a.request.id ≡ conversion =
        key-row (λ c. c.id) conversion db.trial_conversion_requests c.found in
      record {
        plan = a;
        checked = c;
        request = ground (
          arith,
          conversion-approve conversion a target_id job_id now db db' h,
          c.found,
          c.requested,
          ==_iff a.request.id conversion,
        );
        new_target = (tenant-approve target_id).0;
        target = ground (arith, tenant-approve target_id, ==_refl target_id);
        new_job = (job-approve job_id a target_id job_id now db db' h).0;
        job = ground (arith, job-approve job_id a target_id job_id now db db' h, ==_refl job_id);
        other_tenants = λ i n. ground (arith, tenant-approve i, ==_iff target_id i);
        other_requests = λ i n.
            ground
              (arith, conversion-approve i a target_id job_id now db db' h, ==_iff a.request.id i);
      }

-- Whatever the approval: either it is not answered by 201 and changes nothing; or the conversion
-- belongs to the trial, is a clean one and was requested, and the slug is safe and was free. Then
-- the conversion is approved and names the drawn tenant, which is a new, pending production tenant
-- without a node, the drawn job is a new one, queued without a node in the production pool, and no
-- other tenant or conversion has changed.
pub approve_clean_production_conversion-IsApproved :
    (env : Env) (r : Request) (trial conversion target_id job_id : Text) (now : ℕ) (db : Db)
    → let done =
        approve_clean_production_conversion env r trial conversion target_id job_id now db in
      ((done.0.status ≢ 201) × (done.1 ≡ db))
      ⊎ ((done.0.status ≡ 201) × IsApproved trial conversion target_id job_id now db done.1)
unfolding approve_clean_production_conversion
approve_clean_production_conversion-IsApproved env r trial conversion target_id job_id now db =
    elim (Result-cases (check_approval env r trial conversion db)) [
      | inl (e, h) ↦ inl (
          rw (approve_clean_production_conversion, h)
            (check_approval-refused env r trial conversion db e h, refl))
      | inr (a, h) ↦ elim (Option-cases (approve a target_id job_id now db)) [
        | inl k ↦ inl (rw (approve_clean_production_conversion, h, k) (ground arith, refl))
        | inr (db', k) ↦
            let (body, _, _, checked) = check_approval-body env r trial conversion db a h in
            inr (
              rw (approve_clean_production_conversion, h, k)
                (
                  refl,
                  approve-IsApproved a target_id job_id now db db' k trial conversion
                      (check_approval_body-Checked body trial conversion db a checked),
                ))
      ]
    ]
