-- ===== src/Provisioning/Claimed.antt =====
-- What a claim of `claimNextOperation` of deploy/cloudflare/src/nodeOperations.ts hands out, and what
-- a retry of deploy/cloudflare/src/provisioningRetry.ts does to the tenant.
use dsx_control_plane.Base.{
  ℕ, ◌+◌, ◌<◌, ◌≡◌, refl, inl, inr, true, Option, none, some, List, arith, ok, Option-cases,
  Bool-cases,
}
use dsx_control_plane.Text.{Text, ==_iff, ==_refl}
use dsx_control_plane.Time.{lease_end}
use dsx_control_plane.Table.{always, row, row-update, key-row}
use dsx_control_plane.Db.{Db, tenant_of, template_of, job_of, lease_of}
use dsx_control_plane.Db.States.{ProvisioningState, TenantStatus, dispatched, same_state}
use dsx_control_plane.Db.Rows.{Template, Tenant, ProvisioningJob, Lease}
use dsx_control_plane.Http.{Env, Request, authenticate_node}
use dsx_control_plane.Http.Response.{Operation, operation}
use dsx_control_plane.Provisioning.Machine.{can_transition}
use dsx_control_plane.Provisioning.Retry.{check_retry, requeue, retry_provisioning_job}
use dsx_control_plane.Provisioning.Operations.{
  is_on, is_claimable, mark_expired_leases, next_job, insert_lease, dispatch_job,
}
use dsx_control_plane.Provisioning.Operations.Claim.{
  Source, operation_source, new_lease, dispatch_source, after_lease, claim_job,
  claim_next_operation,
}
use dsx_control_plane.Provisioning.Effects.{row-insert_lease, lease-dispatch_job, job-dispatch_job}
use dsx_control_plane.Provisioning.Protocol.Claims.{operation_source-eq-some}
use dsx_control_plane.Provisioning.Protocol.Moves.{check_retry-failed}

-- What a claim that hands out an operation has found and leaves, with `before` the database after
-- the sweep.
pub record IsHandedOut (env : Env) (op : Operation) (node token : Text) (now : ℕ)
    (before after : Db) : Type 0 where
  pub job : ProvisioningJob
  pub tenant : Tenant
  pub template : Template
  pub found : job_of before op.id ≡ some job
  pub was_claimable : is_claimable job.state ≡ true
  pub on_node : job.node_id ≡ some node
  pub was_free : lease_of before op.id ≡ none
  pub attempts : job.attempt < 100
  pub owner : tenant_of before job.tenant_id ≡ some tenant
  pub made_of : template_of before job.template_id ≡ some template
  pub is_active : template.active ≡ true
  pub dispatches :
      job_of after op.id
      ≡ some (record job {
        state = dispatched;
        attempt = job.attempt + 1;
        error_code = none;
        updated_at = now;
        finished_at = none;
      })
  pub leases :
      lease_of after op.id
      ≡ some (record {
        job_id = op.id;
        node_id = node;
        lease_token_hash = env.sha256 token;
        lease_expires_at = lease_end env.node_operation_lease_seconds now;
        created_at = now;
        updated_at = now;
      })
  pub secret : op.lease_token ≡ token

free_to_dispatch :
    (s : ProvisioningState) → can_transition s dispatched ≡ true → is_claimable s ≡ true
unfolding can_transition is_claimable
free_to_dispatch s h = ground arith

source_parts :
    (db : Db) (k node : Text) (s : Source)
    → operation_source db k node ≡ some s
    → (tenant_of db s.job.tenant_id ≡ some s.tenant)
      × (template_of db s.job.template_id ≡ some s.template)
      × (s.template.active ≡ true)
unfolding operation_source
source_parts db k node s h = (ground arith, ground arith, ground arith)

dispatch_job-attempts :
    (j : ProvisioningJob) (node : Text) (now : ℕ) (db db' : Db)
    → dispatch_job j node now db ≡ some db'
    → j.attempt < 100
unfolding dispatch_job
dispatch_job-attempts j node now db db' h = ground arith

is_on-eq : (o : Option Text) (node : Text) → is_on o node ≡ true → o ≡ some node
is_on-eq none node h = cc
is_on-eq (some n) node h = ground (arith, ==_iff n node)

module _ (env : Env) (node token : Text) (now : ℕ) (db : Db) where
  module _ (k : Text) (ls : List Lease)
      (inserted : insert_lease (new_lease env k node token now) db.provisioning_operation_leases
        ≡ some ls) where
    abbrev leased : Db
    leased = record db { provisioning_operation_leases = ls }

    dispatch_job-IsHandedOut :
        (op : Operation) (s : Source) (db' : Db)
        → op.id ≡ s.job.id
        → op.lease_token ≡ token
        → operation_source leased k node ≡ some s
        → can_transition s.job.state dispatched ≡ true
        → dispatch_job s.job node now leased ≡ some db'
        → IsHandedOut env op node token now db db'
    unfolding same_state
    dispatch_job-IsHandedOut op s db' named secret e free h =
        let (found, on) = operation_source-eq-some leased k node s e in
        let (owner, made, active) = source_parts leased k node s e in
        let own = key-row (λ x. x.id) k db.provisioning_jobs {r = s.job} found in
        let (unleased, lease) =
          row-insert_lease k (new_lease env k node token now) db.provisioning_operation_leases ls
            inserted in
        record {
          job = s.job;
          tenant = s.tenant;
          template = s.template;
          found = ground (arith, found, own, named);
          was_claimable = free_to_dispatch s.job.state free;
          on_node = is_on-eq s.job.node_id node on;
          was_free = ground (arith, unleased, own, named);
          attempts = dispatch_job-attempts s.job node now leased db' h;
          owner = owner;
          made_of = made;
          is_active = active;
          dispatches = ground (
            arith,
            job-dispatch_job op.id s.job node now leased db' h,
            ==_refl s.job.id,
            found,
            own,
            named,
            on,
          );
          leases = ground (
            arith,
            lease-dispatch_job op.id s.job node now leased db' h,
            lease,
            unleased,
            own,
            named,
            ==_refl k,
          );
          secret = secret;
        }

    after_lease-IsHandedOut :
        (op : Operation)
        → (after_lease env k node token now leased).0
          ≡ record { status = 200; body = operation (some op) }
        → IsHandedOut env op node token now db (after_lease env k node token now leased).1
    unfolding after_lease row
    after_lease-IsHandedOut op h = elim (Option-cases (operation_source leased k node)) [
      | inl e ↦ absurd (ground arith)
      | inr (s, e) ↦ elim (Bool-cases (can_transition s.job.state dispatched)) [
        | inr busy ↦ absurd (ground arith)
        | inl free ↦ elim (Option-cases (dispatch_job s.job node now leased)) [
          | inl none_left ↦ absurd (unfold dispatch_source in ground arith)
          | inr (db', done) ↦
              let answer = rw (after_lease, e, free, dispatch_source, done) at h in
              rw (after_lease, e, free, dispatch_source, done)
                (dispatch_job-IsHandedOut op s db'
                  (unfold dispatch_source in ground (arith, answer)) (ground (arith, answer)) e free
                  done)
        ]
      ]
    ]

  claim_job-IsHandedOut :
      (o : Option ProvisioningJob) (op : Operation)
      → (claim_job env o node token now db).0 ≡ record { status = 200; body = operation (some op) }
      → IsHandedOut env op node token now db (claim_job env o node token now db).1
  unfolding claim_job row
  claim_job-IsHandedOut none op h = absurd (ground arith)
  claim_job-IsHandedOut (some j) op h =
      elim (Option-cases
        (insert_lease (new_lease env j.id node token now) db.provisioning_operation_leases)) [
          | inl e ↦ absurd (ground arith)
          | inr (ls, e) ↦
              rw (claim_job, e) (after_lease-IsHandedOut j.id ls e op (rw (claim_job, e) at h))
        ]

-- A claim that hands out an operation has the token of an active node, and finds, after the sweep,
-- a job of that node that is placed or retrying, unleased and dispatched fewer than a hundred times,
-- with its tenant and an active template. It leaves the job dispatched, one attempt more, with a
-- lease for the token that it hands out.
pub claim_next_operation-IsHandedOut :
    (env : Env) (r : Request) (node token : Text) (now : ℕ) (db : Db) (op : Operation)
    → (claim_next_operation env r node token now db).0
      ≡ record { status = 200; body = operation (some op) }
    → (authenticate_node env r node db ≡ true)
      × IsHandedOut env op node token now
          (mark_expired_leases node now db)
          (claim_next_operation env r node token now db).1
unfolding claim_next_operation row
claim_next_operation-IsHandedOut env r node token now db op h =
    let swept = mark_expired_leases node now db in
    elim (Bool-cases (authenticate_node env r node db)) [
      | inl e ↦ (
        e,
        rw (claim_next_operation, e)
            (claim_job-IsHandedOut env node token now swept (next_job node swept) op
              (rw (claim_next_operation, e) at h)),
      )
      | inr e ↦ absurd (ground arith)
    ]

-- What a retry leaves of the job's tenant.
pub record IsRequeued (t : Tenant) (node : Text) (now : ℕ) (after : Option Tenant) : Type 0 where
  pub owner : Tenant
  pub found : after ≡ some owner
  pub provisions : owner.status ≡ TenantStatus.provisioning
  pub assigned : owner.assigned_node_id ≡ some node

-- A retry that is accepted finds a failed job and sends the job's tenant back to provisioning on
-- that job's node, whatever the status of the tenant: one that is ready through another job, one
-- that is suspended and one that is decommissioned as well.
pub retry_provisioning_job-IsRequeued :
    (env : Env) (r : Request) (k : Text) (now : ℕ) (db : Db) (j : ProvisioningJob) (node : Text)
    (t : Tenant)
    → check_retry env r k db ≡ ok (j, node)
    → tenant_of db j.tenant_id ≡ some t
    → (j.state ≡ ProvisioningState.failed)
      × IsRequeued t node now (tenant_of (retry_provisioning_job env r k now db).1 j.tenant_id)
unfolding retry_provisioning_job requeue row
retry_provisioning_job-IsRequeued env r k now db j node t h owner = (
  (check_retry-failed env r k db j node h).1,
  rw (retry_provisioning_job, h)
      (record {
        owner = record t {
          status = TenantStatus.provisioning;
          assigned_node_id = some node;
          updated_at = now;
        };
        found = ground (
          arith,
          row-update (λ x. x.id) always
              (λ x. record x {
                status = TenantStatus.provisioning;
                assigned_node_id = some node;
                updated_at = now;
              })
              (λ x. refl) j.tenant_id j.tenant_id db.tenants,
          ==_refl j.tenant_id,
        );
        provisions = refl;
        assigned = refl;
      }),
)
