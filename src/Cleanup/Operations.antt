-- ===== src/Cleanup/Operations.antt =====
-- `markExpiredCleanupLeases` and `claimCleanupOperation` of
-- deploy/cloudflare/src/cleanupOperations.ts. A claim with no job passes the request on to the
-- next route, which `none` stands for.
use dsx_control_plane.Base.{
  ℕ, Bool, true, false, not, ◌&&◌, ◌||◌, Option, none, some, List, [], ◌∷◌, ◌++◌, leb, ltb,
  if◌then◌else◌,
}
use dsx_control_plane.Base.Lists.{select, take}
use dsx_control_plane.Text.{Text, ◌==◌, text}
use dsx_control_plane.Time.{lease_end}
use dsx_control_plane.Table.{always, row, update, delete}
use dsx_control_plane.Table.Order.{sort, first}
use dsx_control_plane.Db.{Db, tenant_of, cleanup_of}
use dsx_control_plane.Db.States.{
  CleanupState, queued, dispatched, running, failed, EnvironmentKind, TenantStatus, same_cleanup,
  same_kind, kind_word,
}
use dsx_control_plane.Db.Rows.{Tenant, CleanupJob, Lease, Payload, word, text as txt}
use dsx_control_plane.Http.{Env, Request, authenticate_node}
use dsx_control_plane.Http.Response.{Response, operation, fail}
use dsx_control_plane.Provisioning.Tenants.{job_event}
use dsx_control_plane.Provisioning.Operations.{expires_first, is_absent, insert_lease, node_audit}
use dsx_control_plane.Provisioning.Operations.Claim.{new_lease}
use dsx_control_plane.Cleanup.Jobs.{cleanup_word}

-- j.state IN ('dispatched', 'running')
unfoldable pub is_under_way : CleanupState → Bool
is_under_way dispatched = true
is_under_way running = true
is_under_way _ = false

abbrev under_way_row : Option CleanupJob → Bool
under_way_row none = false
under_way_row (some j) = is_under_way j.state

unfoldable pub is_expired_cleanup : Db → Text → ℕ → Lease → Bool
unfolding ◌==◌ row is_under_way
is_expired_cleanup db node_id now l =
    l.node_id == node_id && leb l.lease_expires_at now && under_way_row (cleanup_of db l.job_id)

unfoldable pub expired_cleanup_leases : Text → ℕ → Db → List Lease
unfolding select sort is_expired_cleanup
expired_cleanup_leases node_id now db =
    take 20
      (sort expires_first (select (is_expired_cleanup db node_id now) db.cleanup_operation_leases))

abbrev pub failed_tenant : ℕ → Tenant → Tenant
failed_tenant now t = record t { status = TenantStatus.failed; updated_at = now }

abbrev pub expired_cleanup : ℕ → CleanupJob → CleanupJob
expired_cleanup now x = record x {
  state = failed;
  error_code = some (text "operation_lease_expired");
  updated_at = now;
  finished_at = some now;
}

-- The batch for one expired lease, whose job is `j`.
unfoldable pub expire_cleanup : CleanupJob → Text → ℕ → Db → Db
unfolding update delete is_under_way
expire_cleanup j job_id now db = record db {
  cleanup_jobs =
      update (λ x. x.id) job_id (λ x. is_under_way x.state) (expired_cleanup now) db.cleanup_jobs;
  tenants = update (λ t. t.id) j.tenant_id always (failed_tenant now) db.tenants;
  cleanup_operation_leases = delete (λ l. l.job_id) job_id db.cleanup_operation_leases;
  cleanup_job_events =
      db.cleanup_job_events
      ++ job_event job_id "cleanup.failed" (some (cleanup_word j.state)) "failed"
          (("error_code", word "operation_lease_expired") ∷ []) now
        ∷ [];
}

unfoldable pub expire_cleanup_lease : Text → ℕ → Db → Db
unfolding expire_cleanup row
expire_cleanup_lease job_id now db = elim (cleanup_of db job_id) [
  | none ↦ db
  | some j ↦ expire_cleanup j job_id now db
]

unfoldable pub expire_each_cleanup : List Lease → ℕ → Db → Db
unfolding expire_cleanup_lease
expire_each_cleanup [] now db = db
expire_each_cleanup (l ∷ ls) now db =
    expire_each_cleanup ls now (expire_cleanup_lease l.job_id now db)

unfoldable pub mark_expired_cleanup_leases : Text → ℕ → Db → Db
unfolding expire_each_cleanup expired_cleanup_leases
mark_expired_cleanup_leases node_id now db =
    expire_each_cleanup (expired_cleanup_leases node_id now db) now db

-- The `WHERE` of the claim.
unfoldable pub is_waiting : Db → Text → CleanupJob → Bool
unfolding row ◌==◌ same_cleanup
is_waiting db node_id j =
    j.node_id == node_id
    && same_cleanup j.state queued
    && is_absent (row (λ l. l.job_id) j.id db.cleanup_operation_leases)

abbrev pub older : CleanupJob → CleanupJob → Bool
older a b = ltb a.created_at b.created_at

unfoldable pub next_cleanup : Text → Db → Option CleanupJob
unfolding sort select is_waiting
next_cleanup node_id db = first (sort older (select (is_waiting db node_id) db.cleanup_jobs))

-- A row of the join that reads the claimed job back.
pub record CleanupSource : Type 0 where
  pub job : CleanupJob
  pub environment_kind : EnvironmentKind

abbrev with_tenant : CleanupJob → Option Tenant → Option CleanupSource
with_tenant j none = none
with_tenant j (some t) = some (record { job = j; environment_kind = t.environment_kind })

abbrev cleanup_source_from : Db → Text → Option CleanupJob → Option CleanupSource
cleanup_source_from db node_id none = none
cleanup_source_from db node_id (some j) =
    if j.node_id == node_id then with_tenant j (tenant_of db j.tenant_id) else none

unfoldable pub cleanup_source : Db → Text → Text → Option CleanupSource
unfolding row ◌==◌
cleanup_source db job_id node_id = cleanup_source_from db node_id (cleanup_of db job_id)

unfoldable pub cleanup_payload : CleanupSource → Payload
cleanup_payload s =
    ("tenant_id", txt s.job.tenant_id)
    ∷ ("environment_kind", word (kind_word s.environment_kind))
    ∷ ("template_id", txt s.job.template_id)
    ∷ ("provisioning_operation_id", txt s.job.provisioning_job_id)
    ∷ ("database_name", txt s.job.database_name)
    ∷ []

abbrev pub dispatched_cleanup : ℕ → CleanupJob → CleanupJob
dispatched_cleanup now x = record x { state = dispatched; error_code = none; updated_at = now }

-- The batch that dispatches a claimed job.
unfoldable pub dispatch_cleanup : CleanupJob → Text → ℕ → Db → Db
unfolding update same_cleanup
dispatch_cleanup j node_id now db = record db {
  cleanup_jobs =
      update (λ x. x.id) j.id (λ x. same_cleanup x.state queued) (dispatched_cleanup now)
        db.cleanup_jobs;
  cleanup_job_events =
      db.cleanup_job_events
      ++ job_event j.id "cleanup.dispatched" (some "queued") "dispatched"
          (("node_id", txt node_id) ∷ []) now
        ∷ [];
  audit_events =
      db.audit_events
      ++ node_audit "cleanup.operation.claimed" "cleanup_job" node_id j.id
          (("operation_type", word "cleanup_test_odoo_environment") ∷ []) now
        ∷ [];
}

abbrev cleanup_conflict : Text → Db → Option Response × Db
cleanup_conflict job_id db = (
  some (fail 409 "cleanup_operation_claim_conflict"),
  record db {
    cleanup_operation_leases = delete (λ l. l.job_id) job_id db.cleanup_operation_leases;
  },
)

abbrev pub cleanup_operation : Env → CleanupSource → Text → ℕ → Response
cleanup_operation env s lease_token now = record {
  status = 200;
  body = operation (
      some (record {
        id = s.job.id;
        type = "cleanup_test_odoo_environment";
        lease_token = lease_token;
        lease_expires_at = lease_end env.node_operation_lease_seconds now;
        payload = cleanup_payload s;
      }));
}

-- After the lease is inserted; `db` holds it.
unfoldable pub after_cleanup_lease : Env → Text → Text → Text → ℕ → Db → Option Response × Db
unfolding cleanup_source dispatch_cleanup delete same_cleanup same_kind lease_end cleanup_payload
after_cleanup_lease env job_id node_id lease_token now db =
    elim (cleanup_source db job_id node_id) [
      | none ↦ cleanup_conflict job_id db
      | some s ↦
          if not (same_cleanup s.job.state queued)
            || not (same_kind s.environment_kind EnvironmentKind.test)
          then cleanup_conflict job_id db
          else (
            some (cleanup_operation env s lease_token now),
            dispatch_cleanup s.job node_id now db,
          )
    ]

unfoldable pub claim_cleanup : Env → Option CleanupJob → Text → Text → ℕ → Db → Option Response × Db
unfolding insert_lease after_cleanup_lease
claim_cleanup env none node_id lease_token now db = (none, db)
claim_cleanup env (some j) node_id lease_token now db =
    elim (insert_lease (new_lease env j.id node_id lease_token now) db.cleanup_operation_leases) [
      | none ↦ (none, db)
      | some ls ↦
          after_cleanup_lease env j.id node_id lease_token now
            (record db { cleanup_operation_leases = ls })
    ]

unfoldable pub claim_cleanup_operation : Env → Request → Text → Text → ℕ → Db → Option Response × Db
unfolding authenticate_node mark_expired_cleanup_leases next_cleanup claim_cleanup
claim_cleanup_operation env request node_id lease_token now db =
    let swept = mark_expired_cleanup_leases node_id now db in
    if authenticate_node env request node_id db
    then claim_cleanup env (next_cleanup node_id swept) node_id lease_token now swept
    else (some (fail 401 "invalid_or_revoked_agent"), db)
