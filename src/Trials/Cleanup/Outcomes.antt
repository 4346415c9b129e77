-- ===== src/Trials/Cleanup/Outcomes.antt =====
-- What the claim and the report of the clean-up of a trial, in
-- deploy/cloudflare/src/trialCleanupOperations.ts, accept and leave.
use dsx_control_plane.Base.{
  ℕ, ◌≡◌, inl, inr, refl, true, Option, none, some, List, [], ◌∷◌, arith, ok, Option-cases,
  Bool-cases,
}
use mathlib.Core.Path.{subst}
use mathlib.Core.Option.{some-injective}
use dsx_control_plane.Text.{Text, ==_refl}
use dsx_control_plane.Time.{lease_end}
use dsx_control_plane.Table.{row, row-update, key-row}
use dsx_control_plane.Db.{Db, tenant_of, cleanup_of, cleanup_lease_of}
use dsx_control_plane.Db.States.{
  CleanupState, EnvironmentKind, TenantStatus, TrialState, same_cleanup, same_kind,
}
use dsx_control_plane.Db.Rows.{Tenant, CleanupJob, Lease, word, text as txt}
use dsx_control_plane.Http.{Env, Request, authenticate_node}
use dsx_control_plane.Http.Response.{Response, Operation, operation, settle}
use dsx_control_plane.Provisioning.Operations.{insert_lease}
use dsx_control_plane.Provisioning.Operations.Claim.{new_lease}
use dsx_control_plane.Provisioning.Effects.{row-insert_lease}
use dsx_control_plane.Cleanup.Report.{
  CleanupReported, cleaned, CleanupOperationResultInput, finished_cleanup,
}
use dsx_control_plane.Cleanup.Protocol.TrialClaims.{
  trial_cleanup_source-eq-some, job-dispatch_trial_cleanup,
}
use dsx_control_plane.Cleanup.Protocol.TrialReports.{
  lease-finish_trial_cleanup, job-finish_trial_cleanup, check_trial_report-held,
}
use dsx_control_plane.Trials.Expiration.{is_trial}
use dsx_control_plane.Trials.Cleanup.Claim.{
  mark_expired_trial_cleanup_leases, next_trial_cleanup, TrialCleanupSource, trial_cleanup_source,
  is_dispatchable, dispatch_trial_cleanup, trial_cleanup_operation, after_trial_lease,
  claim_trial_job, claim_trial_cleanup,
}
use dsx_control_plane.Trials.Cleanup.Report.{
  finished_trial, finish_trial_cleanup, write_trial_cleanup, check_trial_report,
  report_trial_cleanup_result,
}

-- What a claim that hands out the operation `op` has found and leaves, with `before` the database
-- after the sweep.
pub record IsTrialClaimed (env : Env) (op : Operation) (node token : Text) (now : ℕ)
    (before after : Db) : Type 0 where
  pub job : CleanupJob
  pub tenant : Tenant
  pub found : cleanup_of before op.id ≡ some job
  pub was_queued : job.state ≡ CleanupState.queued
  pub on_node : job.node_id ≡ node
  pub owner : tenant_of before job.tenant_id ≡ some tenant
  pub kind : tenant.environment_kind ≡ EnvironmentKind.trial
  pub was_pending : tenant.trial_state ≡ some TrialState.cleanup_pending
  pub was_free : cleanup_lease_of before op.id ≡ none
  pub dispatches :
      cleanup_of after op.id
      ≡ some (record job { state = CleanupState.dispatched; error_code = none; updated_at = now })
  pub leases :
      cleanup_lease_of after op.id
      ≡ some (record {
        job_id = op.id;
        node_id = node;
        lease_token_hash = env.sha256 op.lease_token;
        lease_expires_at = op.lease_expires_at;
        created_at = now;
        updated_at = now;
      })
  pub secret : op.lease_token ≡ token
  pub until : op.lease_expires_at ≡ lease_end env.node_operation_lease_seconds now
  pub type : op.type ≡ "cleanup_test_odoo_environment"
  pub payload :
      op.payload
      ≡ ("tenant_id", txt job.tenant_id)
        ∷ ("environment_kind", word "trial")
        ∷ ("template_id", txt job.template_id)
        ∷ ("provisioning_operation_id", txt job.provisioning_job_id)
        ∷ ("database_name", txt job.database_name)
        ∷ []

-- The answer hands out an operation, and that one is claimed.
abbrev IsAnswered : Env → Response → Text → Text → ℕ → Db → Db → Type 0
IsAnswered env answer node token now before after =
    (op : Operation) × (answer ≡ record { status = 200; body = operation (some op) })
    × IsTrialClaimed env op node token now before after

trial_cleanup_source-tenant :
    (db : Db) (k node : Text) (s : TrialCleanupSource)
    → trial_cleanup_source db k node ≡ some s
    → tenant_of db s.job.tenant_id ≡ some s.tenant
unfolding trial_cleanup_source
trial_cleanup_source-tenant db k node s h = ground arith

is_dispatchable-parts :
    (s : TrialCleanupSource)
    → is_dispatchable s ≡ true
    → (s.job.state ≡ CleanupState.queued)
      × (s.tenant.environment_kind ≡ EnvironmentKind.trial)
      × (s.tenant.trial_state ≡ some TrialState.cleanup_pending)
unfolding is_dispatchable same_cleanup same_kind
is_dispatchable-parts s h = (ground arith, ground arith, ground arith)

module _ (env : Env) (node token : Text) (now : ℕ) (db : Db) where
  module _ (k : Text) (ls : List Lease)
      (inserted : insert_lease (new_lease env k node token now) db.cleanup_operation_leases
        ≡ some ls) where
    abbrev leased : Db
    leased = record db { cleanup_operation_leases = ls }

    dispatch-IsTrialClaimed :
        (s : TrialCleanupSource)
        → trial_cleanup_source leased k node ≡ some s
        → is_dispatchable s ≡ true
        → IsAnswered env
            (trial_cleanup_operation env s token now)
            node
            token
            now
            db
            (dispatch_trial_cleanup s.job node now leased)
    unfolding same_cleanup
    dispatch-IsTrialClaimed s e free =
        let (found, on) = trial_cleanup_source-eq-some leased k node s e in
        let (queued, kind, pending) = is_dispatchable-parts s free in
        let own = key-row (λ x. x.id) k db.cleanup_jobs {r = s.job} found in
        let (unleased, lease) =
          row-insert_lease k (new_lease env k node token now) db.cleanup_operation_leases ls
            inserted in
        (
          _,
          refl,
          record {
            job = s.job;
            tenant = s.tenant;
            found = ground (arith, found, own);
            was_queued = queued;
            on_node = on;
            owner = trial_cleanup_source-tenant leased k node s e;
            kind = kind;
            was_pending = pending;
            was_free = ground (arith, unleased, own);
            dispatches = ground (
              arith,
              job-dispatch_trial_cleanup s.job.id s.job node now leased,
              ==_refl s.job.id,
              found,
              own,
              queued,
            );
            leases =
                unfold dispatch_trial_cleanup in ground (arith, lease, unleased, own, ==_refl k);
            secret = refl;
            until = refl;
            type = refl;
            payload = refl;
          },
        )

    after_trial_lease-IsTrialClaimed :
        (answer : Response)
        → (after_trial_lease env k node token now leased).0 ≡ some answer
        → answer.status ≡ 200
        → IsAnswered env answer node token now db (after_trial_lease env k node token now leased).1
    unfolding after_trial_lease row
    after_trial_lease-IsTrialClaimed answer h accepts =
        elim (Option-cases (trial_cleanup_source leased k node)) [
          | inl e ↦ absurd (ground arith)
          | inr (s, e) ↦ elim (Bool-cases (is_dispatchable s)) [
            | inr busy ↦ absurd (ground arith)
            | inl free ↦
                rw (after_trial_lease, e, free)
                  (subst
                    (λ a.
                      IsAnswered env a node token now db
                        (dispatch_trial_cleanup s.job node now leased))
                    (some-injective _ _ (rw (after_trial_lease, e, free) at h))
                    (dispatch-IsTrialClaimed s e free))
          ]
        ]

  claim_trial_job-IsTrialClaimed :
      (o : Option CleanupJob) (answer : Response)
      → (claim_trial_job env o node token now db).0 ≡ some answer
      → answer.status ≡ 200
      → IsAnswered env answer node token now db (claim_trial_job env o node token now db).1
  unfolding claim_trial_job row
  claim_trial_job-IsTrialClaimed none answer h accepts = absurd (ground arith)
  claim_trial_job-IsTrialClaimed (some j) answer h accepts =
      elim (Option-cases
        (insert_lease (new_lease env j.id node token now) db.cleanup_operation_leases)) [
          | inl e ↦ absurd (ground arith)
          | inr (ls, e) ↦
              rw (claim_trial_job, e)
                (after_trial_lease-IsTrialClaimed j.id ls e answer (rw (claim_trial_job, e) at h)
                  accepts)
        ]

-- A claim of a trial's clean-up that is accepted has the token of an active node, and hands out an
-- operation. The operation names a job of that node that was queued without a lease after the sweep,
-- and whose tenant is a trial that awaits its clean-up; it holds the drawn token, and the tenant,
-- template, provisioning job and database of the job. The job is left dispatched, with a lease for
-- the token of the operation that ends when the operation says.
pub claim_trial_cleanup-IsTrialClaimed :
    (env : Env) (r : Request) (node token : Text) (now : ℕ) (db : Db) (answer : Response)
    → (claim_trial_cleanup env r node token now db).0 ≡ some answer
    → answer.status ≡ 200
    → (authenticate_node env r node db ≡ true)
      × ((op : Operation) × (answer ≡ record { status = 200; body = operation (some op) })
          × IsTrialClaimed env op node token now
              (mark_expired_trial_cleanup_leases node now db)
              (claim_trial_cleanup env r node token now db).1)
unfolding claim_trial_cleanup row
claim_trial_cleanup-IsTrialClaimed env r node token now db answer h accepts =
    let swept = mark_expired_trial_cleanup_leases node now db in
    elim (Bool-cases (authenticate_node env r node db)) [
      | inl e ↦ (
        e,
        rw (claim_trial_cleanup, e)
            (claim_trial_job-IsTrialClaimed env node token now swept (next_trial_cleanup node swept)
              answer (rw (claim_trial_cleanup, e) at h) accepts),
      )
      | inr e ↦ absurd (ground arith)
    ]

-- What an accepted `cleaned` leaves: `j` is the job as it was found.
pub record IsCleaned (j : CleanupJob) (k : Text) (now : ℕ) (db after : Db) : Type 0 where
  pub was_running : j.state ≡ CleanupState.running
  pub job : CleanupJob
  pub job_found : cleanup_of after k ≡ some job
  pub job_cleaned : job.state ≡ CleanupState.cleaned
  pub lease : cleanup_lease_of after k ≡ none
  pub tenant :
      (t : Tenant)
      → tenant_of db j.tenant_id ≡ some t
      → t.environment_kind ≡ EnvironmentKind.trial
      → (u : Tenant) × (tenant_of after j.tenant_id ≡ some u)
        × (u.status ≡ TenantStatus.decommissioned)
        × (u.trial_state ≡ some TrialState.cleaned)
        × (u.assigned_node_id ≡ none)
        × (u.database_name ≡ none)

module _ (input : CleanupOperationResultInput) (ends : input.state ≡ cleaned) (j : CleanupJob)
    (node k : Text) (now : ℕ) (db : Db) where
  finished_trial_id : (s : CleanupReported) (t : Tenant) → (finished_trial s now t).id ≡ t.id
  finished_trial_id s t = ground arith

  finish_trial_cleanup-tenant :
      (t : Tenant)
      → tenant_of db j.tenant_id ≡ some t
      → t.environment_kind ≡ EnvironmentKind.trial
      → tenant_of (finish_trial_cleanup input j node k now db) j.tenant_id
        ≡ some (finished_trial cleaned now t)
  unfolding finish_trial_cleanup same_kind
  finish_trial_cleanup-tenant t owner kind = ground (
    arith,
    row-update (λ x. x.id) is_trial (finished_trial input.state now) (finished_trial_id input.state)
        j.tenant_id j.tenant_id db.tenants,
    ==_refl j.tenant_id,
    ends,
  )

  finish_trial_cleanup-IsCleaned :
      cleanup_of db k ≡ some j
      → j.state ≡ CleanupState.running
      → IsCleaned j k now db (finish_trial_cleanup input j node k now db)
  finish_trial_cleanup-IsCleaned found s = record {
    was_running = s;
    job = finished_cleanup input now j;
    job_found = ground (arith, job-finish_trial_cleanup k input j node k now db, ==_refl k);
    job_cleaned = rw ends refl;
    lease = ground (arith, lease-finish_trial_cleanup k input j node k now db, ==_refl k);
    tenant = λ t owner kind. (
      finished_trial cleaned now t,
      finish_trial_cleanup-tenant t owner kind,
      refl,
      refl,
      refl,
      refl,
    );
  }

write_trial_cleanup-IsCleaned :
    (env : Env) (input : CleanupOperationResultInput) (s : CleanupReported) (j : CleanupJob)
    (node k : Text) (now : ℕ) (db : Db)
    → cleanup_of db k ≡ some j
    → input.state ≡ cleaned
    → s ≡ cleaned
    → (settle db (write_trial_cleanup s env input j node k now db)).0.status ≡ 200
    → IsCleaned j k now db (settle db (write_trial_cleanup s env input j node k now db)).1
unfolding write_trial_cleanup
write_trial_cleanup-IsCleaned env input s j node k now db found ends e accepts = ground (
  arith,
  λ (r : j.state ≡ CleanupState.running).
      finish_trial_cleanup-IsCleaned input ends j node k now db found r,
)

-- An accepted `cleaned` for the clean-up of a trial finds a running job. It leaves the job cleaned
-- with no lease, and its tenant, if it is a trial, decommissioned and cleaned, with no node and no
-- database.
pub report_trial_cleanup_result-IsCleaned :
    (env : Env) (r : Request) (node k : Text) (now : ℕ) (db : Db)
    (input : CleanupOperationResultInput) (j : CleanupJob)
    → check_trial_report env r node k now db ≡ ok (input, j)
    → input.state ≡ cleaned
    → (report_trial_cleanup_result env r node k now db).0.status ≡ 200
    → IsCleaned j k now db (report_trial_cleanup_result env r node k now db).1
report_trial_cleanup_result-IsCleaned env r node k now db input j checked ends accepts =
    let (found, _) = check_trial_report-held env r node k now db input j checked in
    unfold report_trial_cleanup_result in
    rw checked (
      write_trial_cleanup-IsCleaned env input input.state j node k now db found ends ends
        (rw (report_trial_cleanup_result, checked) at accepts))
