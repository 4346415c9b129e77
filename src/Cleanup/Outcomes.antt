-- ===== src/Cleanup/Outcomes.antt =====
-- What the claim and the report of a clean-up, in deploy/cloudflare/src/cleanupOperations.ts,
-- accept and leave.
use dsx_control_plane.Base.{
  ℕ, ◌≡◌, ◌≢◌, inl, inr, true, Option, none, some, List, [], ◌∷◌, arith, ok, Option-cases,
  Bool-cases,
}
use mathlib.Core.Option.{some-injective}
use dsx_control_plane.Time.{lease_end}
use dsx_control_plane.Text.{Text, ==_iff, ==_refl}
use dsx_control_plane.Table.{always, row, row-update, key-row}
use dsx_control_plane.Db.{Db, tenant_of, cleanup_of, cleanup_lease_of}
use dsx_control_plane.Db.States.{
  CleanupState, EnvironmentKind, TenantStatus, same_cleanup, same_kind,
}
use dsx_control_plane.Db.Rows.{Tenant, CleanupJob, Lease, word, text as txt}
use dsx_control_plane.Http.{Env, Request, authenticate_node}
use dsx_control_plane.Http.Response.{Operation, operation, settle}
use dsx_control_plane.Provisioning.Operations.{insert_lease}
use dsx_control_plane.Provisioning.Operations.Claim.{new_lease}
use dsx_control_plane.Provisioning.Effects.{set_row, row-insert_lease}
use dsx_control_plane.Cleanup.Operations.{
  mark_expired_cleanup_leases, next_cleanup, CleanupSource, cleanup_source, cleanup_operation,
  cleanup_payload, dispatch_cleanup, after_cleanup_lease, claim_cleanup, claim_cleanup_operation,
}
use dsx_control_plane.Cleanup.Report.{
  CleanupOperationResultInput, CleanupReported, running, cleaned, failed, check_cleanup_report,
  write_cleanup, report_cleanup_result, finish_cleanup, finished_tenant,
}
use dsx_control_plane.Cleanup.Effects.{
  lease-finish_cleanup, job-finish_cleanup, job-dispatch_cleanup,
}
use dsx_control_plane.Cleanup.Protocol.Claims.{cleanup_source-eq-some}
use dsx_control_plane.Cleanup.Protocol.Moves.{check_cleanup_report-held}

-- What an accepted report of an end leaves: `j` is the job as it was found.
pub record IsFinished (input : CleanupOperationResultInput) (j : CleanupJob) (k : Text) (now : ℕ)
    (db after : Db) : Type 0 where
  pub was_running : j.state ≡ CleanupState.running
  pub lease : cleanup_lease_of after k ≡ none
  pub cleans :
      input.state ≡ cleaned
      → cleanup_of after k
        ≡ some (record j {
          state = CleanupState.cleaned;
          error_code = input.error_code;
          updated_at = now;
          finished_at = some now;
        })
  pub decommissions :
      input.state ≡ cleaned
      → (t : Tenant) → tenant_of db j.tenant_id ≡ some t
      → tenant_of after j.tenant_id
        ≡ some (record t {
          status = TenantStatus.decommissioned;
          assigned_node_id = none;
          database_name = none;
          updated_at = now;
        })
  pub fails :
      input.state ≡ failed
      → cleanup_of after k
        ≡ some (record j {
          state = CleanupState.failed;
          error_code = input.error_code;
          updated_at = now;
          finished_at = some now;
        })
  pub fails_tenant :
      input.state ≡ failed
      → (t : Tenant) → tenant_of db j.tenant_id ≡ some t
      → tenant_of after j.tenant_id
        ≡ some (record t { status = TenantStatus.failed; updated_at = now })
  pub others : (i : Text) → i ≢ j.tenant_id → tenant_of after i ≡ tenant_of db i

module _ (input : CleanupOperationResultInput) (j : CleanupJob) (node k : Text) (now : ℕ)
    (db : Db) where
  finished_tenant_id : (s : CleanupReported) (t : Tenant) → (finished_tenant s now t).id ≡ t.id
  finished_tenant_id s t = ground arith

  finish_cleanup-tenant :
      (i : Text)
      → tenant_of (finish_cleanup input j node k now db) i
        ≡ set_row j.tenant_id i always (finished_tenant input.state now) (tenant_of db i)
  unfolding finish_cleanup
  finish_cleanup-tenant i =
      row-update (λ t. t.id) always (finished_tenant input.state now)
        (finished_tenant_id input.state) i j.tenant_id db.tenants

  finish_cleanup-IsFinished :
      cleanup_of db k ≡ some j
      → j.state ≡ CleanupState.running
      → IsFinished input j k now db (finish_cleanup input j node k now db)
  finish_cleanup-IsFinished found s = record {
    was_running = s;
    lease = ground (arith, lease-finish_cleanup k input j node k now db, ==_refl k);
    cleans = λ e. ground (arith, job-finish_cleanup k input j node k now db, ==_refl k);
    decommissions =
        λ e t owner. ground (arith, finish_cleanup-tenant j.tenant_id, ==_refl j.tenant_id);
    fails = λ e. ground (arith, job-finish_cleanup k input j node k now db, ==_refl k);
    fails_tenant =
        λ e t owner. ground (arith, finish_cleanup-tenant j.tenant_id, ==_refl j.tenant_id);
    others = λ i other. ground (arith, finish_cleanup-tenant i, ==_iff j.tenant_id i);
  }

write_cleanup-IsFinished :
    (env : Env) (input : CleanupOperationResultInput) (s : CleanupReported) (j : CleanupJob)
    (node k : Text) (now : ℕ) (db : Db)
    → cleanup_of db k ≡ some j
    → s ≢ running
    → (settle db (write_cleanup s env input j node k now db)).0.status ≡ 200
    → IsFinished input j k now db (settle db (write_cleanup s env input j node k now db)).1
unfolding write_cleanup
write_cleanup-IsFinished env input s j node k now db found ends accepts = ground (
  arith,
  λ (r : j.state ≡ CleanupState.running). finish_cleanup-IsFinished input j node k now db found r,
)

-- An accepted `cleaned` or `failed` finds a running job and leaves it with no lease. After `cleaned`
-- the job is cleaned and its tenant decommissioned, with no node and no database; after `failed` the
-- job and its tenant are failed. The job has ended now, and no other tenant changes.
pub report_cleanup_result-IsFinished :
    (env : Env) (r : Request) (node k : Text) (now : ℕ) (db : Db)
    (input : CleanupOperationResultInput) (j : CleanupJob)
    → check_cleanup_report env r node k now db ≡ ok (input, j)
    → input.state ≢ running
    → (report_cleanup_result env r node k now db).0.status ≡ 200
    → IsFinished input j k now db (report_cleanup_result env r node k now db).1
report_cleanup_result-IsFinished env r node k now db input j checked ends accepts =
    let (found, _) = check_cleanup_report-held env r node k now db input j checked in
    unfold report_cleanup_result in
    rw checked (
      write_cleanup-IsFinished env input input.state j node k now db found ends
        (rw (report_cleanup_result, checked) at accepts))

-- What a claim that hands out the operation `op` has found and leaves, with `before` the database
-- after the sweep.
pub record IsClaimed (env : Env) (op : Operation) (node token : Text) (now : ℕ) (before after : Db)
    : Type 0 where
  pub job : CleanupJob
  pub tenant : Tenant
  pub found : cleanup_of before op.id ≡ some job
  pub was_queued : job.state ≡ CleanupState.queued
  pub on_node : job.node_id ≡ node
  pub owner : tenant_of before job.tenant_id ≡ some tenant
  pub is_test : tenant.environment_kind ≡ EnvironmentKind.test
  pub was_free : cleanup_lease_of before op.id ≡ none
  pub dispatches :
      cleanup_of after op.id
      ≡ some (record job { state = CleanupState.dispatched; error_code = none; updated_at = now })
  pub leases :
      cleanup_lease_of after op.id
      ≡ some (record {
        job_id = op.id;
        node_id = node;
        lease_token_hash = env.sha256 op.lease_token;
        lease_expires_at = op.lease_expires_at;
        created_at = now;
        updated_at = now;
      })
  pub secret : op.lease_token ≡ token
  pub until : op.lease_expires_at ≡ lease_end env.node_operation_lease_seconds now
  pub type : op.type ≡ "cleanup_test_odoo_environment"
  pub payload :
      op.payload
      ≡ ("tenant_id", txt job.tenant_id)
        ∷ ("environment_kind", word "test")
        ∷ ("template_id", txt job.template_id)
        ∷ ("provisioning_operation_id", txt job.provisioning_job_id)
        ∷ ("database_name", txt job.database_name)
        ∷ []

cleanup_source-owner :
    (db : Db) (k node : Text) (s : CleanupSource)
    → cleanup_source db k node ≡ some s
    → (t : Tenant) × (tenant_of db s.job.tenant_id ≡ some t)
      × (t.environment_kind ≡ s.environment_kind)
unfolding cleanup_source
cleanup_source-owner db k node s h = elim (Option-cases (cleanup_of db k)) [
  | inl e ↦ absurd (ground arith)
  | inr (j, e) ↦ elim (Option-cases (tenant_of db j.tenant_id)) [
    | inl f ↦ absurd (ground arith)
    | inr (t, f) ↦ (t, ground arith, ground arith)
  ]
]

module _ (env : Env) (node token : Text) (now : ℕ) (db : Db) where
  module _ (k : Text) (ls : List Lease)
      (inserted : insert_lease (new_lease env k node token now) db.cleanup_operation_leases
        ≡ some ls) where
    abbrev leased : Db
    leased = record db { cleanup_operation_leases = ls }

    dispatch_cleanup-IsClaimed :
        (op : Operation) (s : CleanupSource)
        → cleanup_operation env s token now ≡ record { status = 200; body = operation (some op) }
        → cleanup_source leased k node ≡ some s
        → same_cleanup s.job.state CleanupState.queued ≡ true
        → same_kind s.environment_kind EnvironmentKind.test ≡ true
        → IsClaimed env op node token now db (dispatch_cleanup s.job node now leased)
    unfolding same_cleanup same_kind cleanup_payload
    dispatch_cleanup-IsClaimed op s answer e free test =
        let (found, on) = cleanup_source-eq-some leased k node s e in
        let (t, owner, kind) = cleanup_source-owner leased k node s e in
        let own = key-row (λ x. x.id) k db.cleanup_jobs {r = s.job} found in
        let (unleased, lease) =
          row-insert_lease k (new_lease env k node token now) db.cleanup_operation_leases ls
            inserted in
        let named : op.id ≡ s.job.id = ground (arith, answer) in
        let secret : op.lease_token ≡ token = ground (arith, answer) in
        let until : op.lease_expires_at ≡ lease_end env.node_operation_lease_seconds now =
          ground (arith, answer) in
        record {
          job = s.job;
          tenant = t;
          found = ground (arith, found, own, named);
          was_queued = ground arith;
          on_node = on;
          owner = owner;
          is_test = ground arith;
          was_free = ground (arith, unleased, own, named);
          dispatches = ground (
            arith,
            job-dispatch_cleanup op.id s.job node now leased,
            ==_refl s.job.id,
            found,
            own,
            named,
          );
          leases =
              rw (secret, until)
                (unfold dispatch_cleanup in ground (arith, lease, unleased, own, named, ==_refl k));
          secret = secret;
          until = until;
          type = ground (arith, answer);
          payload = ground (arith, answer, test);
        }

    after_cleanup_lease-IsClaimed :
        (op : Operation)
        → (after_cleanup_lease env k node token now leased).0
          ≡ some (record { status = 200; body = operation (some op) })
        → IsClaimed env op node token now db (after_cleanup_lease env k node token now leased).1
    unfolding after_cleanup_lease row
    after_cleanup_lease-IsClaimed op h = elim (Option-cases (cleanup_source leased k node)) [
      | inl e ↦ absurd (ground arith)
      | inr (s, e) ↦ elim (Bool-cases (same_cleanup s.job.state CleanupState.queued)) [
        | inr busy ↦ absurd (ground arith)
        | inl free ↦ elim (Bool-cases (same_kind s.environment_kind EnvironmentKind.test)) [
          | inr other ↦ absurd (ground arith)
          | inl test ↦
              let answer = rw (after_cleanup_lease, e, free, test) at h in
              rw (after_cleanup_lease, e, free, test)
                (dispatch_cleanup-IsClaimed op s (some-injective _ _ answer) e free test)
        ]
      ]
    ]

  claim_cleanup-IsClaimed :
      (o : Option CleanupJob) (op : Operation)
      → (claim_cleanup env o node token now db).0
        ≡ some (record { status = 200; body = operation (some op) })
      → IsClaimed env op node token now db (claim_cleanup env o node token now db).1
  unfolding claim_cleanup row
  claim_cleanup-IsClaimed none op h = absurd (ground arith)
  claim_cleanup-IsClaimed (some j) op h =
      elim (Option-cases
        (insert_lease (new_lease env j.id node token now) db.cleanup_operation_leases)) [
          | inl e ↦ absurd (ground arith)
          | inr (ls, e) ↦
              rw (claim_cleanup, e)
                (after_cleanup_lease-IsClaimed j.id ls e op (rw (claim_cleanup, e) at h))
        ]

-- A claim hands out an operation only to the agent of an active node. The operation names a
-- clean-up job of that node that was queued without a lease after the sweep, and whose tenant is of
-- the kind `test`; it holds the drawn token, and the tenant, template, provisioning job and database
-- of the job. The job is left dispatched, with a lease for the token of the operation that ends when
-- the operation says.
pub claim_cleanup_operation-IsClaimed :
    (env : Env) (r : Request) (node token : Text) (now : ℕ) (db : Db) (op : Operation)
    → (claim_cleanup_operation env r node token now db).0
      ≡ some (record { status = 200; body = operation (some op) })
    → (authenticate_node env r node db ≡ true)
      × IsClaimed env op node token now
          (mark_expired_cleanup_leases node now db)
          (claim_cleanup_operation env r node token now db).1
unfolding claim_cleanup_operation row
claim_cleanup_operation-IsClaimed env r node token now db op h =
    let swept = mark_expired_cleanup_leases node now db in
    elim (Bool-cases (authenticate_node env r node db)) [
      | inl e ↦ (
        e,
        rw (claim_cleanup_operation, e)
            (claim_cleanup-IsClaimed env node token now swept (next_cleanup node swept) op
              (rw (claim_cleanup_operation, e) at h)),
      )
      | inr e ↦ absurd (ground arith)
    ]
