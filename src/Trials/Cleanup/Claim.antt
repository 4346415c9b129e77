-- ===== src/Trials/Cleanup/Claim.antt =====
-- `markExpiredTrialCleanupLeases` and `claimTrialCleanup` of
-- deploy/cloudflare/src/trialCleanupOperations.ts. A claim with no job passes the request on to the
-- next route, which `none` stands for.
use dsx_control_plane.Base.{
  ℕ, Bool, true, false, ◌&&◌, Option, none, some, List, [], ◌∷◌, ◌++◌, leb, if◌then◌else◌,
}
use dsx_control_plane.Base.Lists.{select, take}
use dsx_control_plane.Text.{Text, ◌==◌}
use dsx_control_plane.Time.{lease_end}
use dsx_control_plane.Table.{row, update, delete}
use dsx_control_plane.Table.Order.{sort, first}
use dsx_control_plane.Db.{Db, tenant_of, cleanup_of}
use dsx_control_plane.Db.States.{queued, TenantStatus, TrialState, same_cleanup, same_kind}
use dsx_control_plane.Db.Rows.{Tenant, CleanupJob, Lease, Payload, word, text as txt}
use dsx_control_plane.Http.{Env, Request, authenticate_node}
use dsx_control_plane.Http.Response.{Response, operation, fail}
use dsx_control_plane.Provisioning.Tenants.{job_event}
use dsx_control_plane.Provisioning.Operations.{expires_first, is_absent, insert_lease, node_audit}
use dsx_control_plane.Provisioning.Operations.Claim.{new_lease}
use dsx_control_plane.Cleanup.Jobs.{cleanup_word}
use dsx_control_plane.Cleanup.Operations.{is_under_way, expired_cleanup, older, dispatched_cleanup}
use dsx_control_plane.Trials.Expiration.{is_trial, system_audit}

abbrev trial_only : Option Tenant → Option Tenant
trial_only none = none
trial_only (some t) = if is_trial t then some t else none

-- JOIN tenants t ON t.id = ... WHERE t.environment_kind = 'trial'
unfoldable pub trial_tenant : Db → Text → Option Tenant
unfolding row same_kind
trial_tenant db id = trial_only (tenant_of db id)

abbrev pub trial_job_from : Db → CleanupJob → Option CleanupJob
trial_job_from db j = elim (trial_tenant db j.tenant_id) [ none ↦ none | some _ ↦ some j ]

abbrev trial_job_of : Db → Option CleanupJob → Option CleanupJob
trial_job_of db none = none
trial_job_of db (some j) = trial_job_from db j

-- A clean-up job whose tenant is a trial.
unfoldable pub trial_cleanup_of : Db → Text → Option CleanupJob
unfolding row trial_tenant
trial_cleanup_of db job_id = trial_job_of db (cleanup_of db job_id)

abbrev under_way_row : Option CleanupJob → Bool
under_way_row none = false
under_way_row (some j) = is_under_way j.state

unfoldable pub is_expired_trial_lease : Db → Text → ℕ → Lease → Bool
unfolding ◌==◌ trial_cleanup_of is_under_way
is_expired_trial_lease db node_id now l =
    l.node_id == node_id
    && leb l.lease_expires_at now
    && under_way_row (trial_cleanup_of db l.job_id)

unfoldable pub expired_trial_leases : Text → ℕ → Db → List Lease
unfolding select sort is_expired_trial_lease
expired_trial_leases node_id now db = take 20 (
    sort expires_first (select (is_expired_trial_lease db node_id now) db.cleanup_operation_leases))

abbrev pub failed_trial : ℕ → Tenant → Tenant
failed_trial now t = record t {
  status = TenantStatus.failed;
  trial_state = some TrialState.failed;
  updated_at = now;
}

-- The batch for one expired lease, whose job is `j`.
unfoldable pub expire_trial_cleanup : CleanupJob → Text → ℕ → Db → Db
unfolding update delete is_under_way same_kind
expire_trial_cleanup j job_id now db = record db {
  cleanup_jobs =
      update (λ x. x.id) job_id (λ x. is_under_way x.state) (expired_cleanup now) db.cleanup_jobs;
  tenants = update (λ t. t.id) j.tenant_id is_trial (failed_trial now) db.tenants;
  cleanup_operation_leases = delete (λ l. l.job_id) job_id db.cleanup_operation_leases;
  cleanup_job_events =
      db.cleanup_job_events
      ++ job_event job_id "cleanup.failed" (some (cleanup_word j.state)) "failed"
          (("error_code", word "operation_lease_expired") ∷ []) now
        ∷ [];
  audit_events =
      db.audit_events
      ++ system_audit "trial.cleanup.failed" "cleanup_job" job_id
          (("error_code", word "operation_lease_expired") ∷ []) now
        ∷ [];
}

unfoldable pub expire_trial_lease : Text → ℕ → Db → Db
unfolding expire_trial_cleanup trial_cleanup_of
expire_trial_lease job_id now db = elim (trial_cleanup_of db job_id) [
  | none ↦ db
  | some j ↦ expire_trial_cleanup j job_id now db
]

unfoldable pub expire_each_trial : List Lease → ℕ → Db → Db
unfolding expire_trial_lease
expire_each_trial [] now db = db
expire_each_trial (l ∷ ls) now db = expire_each_trial ls now (expire_trial_lease l.job_id now db)

unfoldable pub mark_expired_trial_cleanup_leases : Text → ℕ → Db → Db
unfolding expire_each_trial expired_trial_leases
mark_expired_trial_cleanup_leases node_id now db =
    expire_each_trial (expired_trial_leases node_id now db) now db

abbrev pub is_pending : Option TrialState → Bool
is_pending (some TrialState.cleanup_pending) = true
is_pending _ = false

abbrev pub is_pending_trial : Option Tenant → Bool
is_pending_trial none = false
is_pending_trial (some t) = is_pending t.trial_state

-- The `WHERE` of the claim.
unfoldable pub is_waiting_trial : Db → Text → CleanupJob → Bool
unfolding row ◌==◌ same_cleanup trial_tenant
is_waiting_trial db node_id j =
    j.node_id == node_id
    && same_cleanup j.state queued
    && is_pending_trial (trial_tenant db j.tenant_id)
    && is_absent (row (λ l. l.job_id) j.id db.cleanup_operation_leases)

unfoldable pub next_trial_cleanup : Text → Db → Option CleanupJob
unfolding sort select is_waiting_trial
next_trial_cleanup node_id db =
    first (sort older (select (is_waiting_trial db node_id) db.cleanup_jobs))

pub record TrialCleanupSource : Type 0 where
  pub job : CleanupJob
  pub tenant : Tenant

abbrev with_tenant : CleanupJob → Option Tenant → Option TrialCleanupSource
with_tenant j none = none
with_tenant j (some t) = some (record { job = j; tenant = t })

abbrev source_from : Db → Text → Option CleanupJob → Option TrialCleanupSource
source_from db node_id none = none
source_from db node_id (some j) =
    if j.node_id == node_id then with_tenant j (tenant_of db j.tenant_id) else none

unfoldable pub trial_cleanup_source : Db → Text → Text → Option TrialCleanupSource
unfolding row ◌==◌
trial_cleanup_source db job_id node_id = source_from db node_id (cleanup_of db job_id)

abbrev trial_cleanup_payload : TrialCleanupSource → Payload
trial_cleanup_payload s =
    ("tenant_id", txt s.job.tenant_id)
    ∷ ("environment_kind", word "trial")
    ∷ ("template_id", txt s.job.template_id)
    ∷ ("provisioning_operation_id", txt s.job.provisioning_job_id)
    ∷ ("database_name", txt s.job.database_name)
    ∷ []

-- The batch that dispatches a claimed job.
unfoldable pub dispatch_trial_cleanup : CleanupJob → Text → ℕ → Db → Db
unfolding update same_cleanup
dispatch_trial_cleanup j node_id now db = record db {
  cleanup_jobs =
      update (λ x. x.id) j.id (λ x. same_cleanup x.state queued) (dispatched_cleanup now)
        db.cleanup_jobs;
  cleanup_job_events =
      db.cleanup_job_events
      ++ job_event j.id "cleanup.dispatched" (some "queued") "dispatched"
          (("node_id", txt node_id) ∷ ("reason", word "trial_expired") ∷ []) now
        ∷ [];
  audit_events =
      db.audit_events
      ++ node_audit "trial.cleanup.operation.claimed" "cleanup_job" node_id j.id
          (("operation_type", word "cleanup_test_odoo_environment") ∷ []) now
        ∷ [];
}

abbrev trial_conflict : Text → Db → Option Response × Db
trial_conflict job_id db = (
  some (fail 409 "trial_cleanup_claim_conflict"),
  record db {
    cleanup_operation_leases = delete (λ l. l.job_id) job_id db.cleanup_operation_leases;
  },
)

abbrev pub trial_cleanup_operation : Env → TrialCleanupSource → Text → ℕ → Response
trial_cleanup_operation env s lease_token now = record {
  status = 200;
  body = operation (
      some (record {
        id = s.job.id;
        type = "cleanup_test_odoo_environment";
        lease_token = lease_token;
        lease_expires_at = lease_end env.node_operation_lease_seconds now;
        payload = trial_cleanup_payload s;
      }));
}

-- The test on the row that is read back.
unfoldable pub is_dispatchable : TrialCleanupSource → Bool
unfolding same_cleanup same_kind
is_dispatchable s =
    same_cleanup s.job.state queued && is_trial s.tenant && is_pending s.tenant.trial_state

-- After the lease is inserted; `db` holds it.
unfoldable pub after_trial_lease : Env → Text → Text → Text → ℕ → Db → Option Response × Db
unfolding trial_cleanup_source dispatch_trial_cleanup delete is_dispatchable lease_end
after_trial_lease env job_id node_id lease_token now db =
    elim (trial_cleanup_source db job_id node_id) [
      | none ↦ trial_conflict job_id db
      | some s ↦
          if is_dispatchable s
          then (
            some (trial_cleanup_operation env s lease_token now),
            dispatch_trial_cleanup s.job node_id now db,
          )
          else trial_conflict job_id db
    ]

unfoldable pub claim_trial_job :
    Env → Option CleanupJob → Text → Text → ℕ → Db → Option Response × Db
unfolding insert_lease after_trial_lease
claim_trial_job env none node_id lease_token now db = (none, db)
claim_trial_job env (some j) node_id lease_token now db =
    elim (insert_lease (new_lease env j.id node_id lease_token now) db.cleanup_operation_leases) [
      | none ↦ (none, db)
      | some ls ↦
          after_trial_lease env j.id node_id lease_token now
            (record db { cleanup_operation_leases = ls })
    ]

unfoldable pub claim_trial_cleanup : Env → Request → Text → Text → ℕ → Db → Option Response × Db
unfolding authenticate_node mark_expired_trial_cleanup_leases next_trial_cleanup claim_trial_job
claim_trial_cleanup env request node_id lease_token now db =
    let swept = mark_expired_trial_cleanup_leases node_id now db in
    if authenticate_node env request node_id db
    then claim_trial_job env (next_trial_cleanup node_id swept) node_id lease_token now swept
    else (some (fail 401 "invalid_or_revoked_agent"), db)
