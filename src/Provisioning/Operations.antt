-- ===== src/Provisioning/Operations.antt =====
-- `markExpiredLeases` and `claimNextOperation` of deploy/cloudflare/src/nodeOperations.ts.
-- Operations/Report has `reportOperationResult`.
pub mod Claim
pub mod Report
use mathlib.Core.Option
use dsx_control_plane.Base.{
  ℕ, zero, ◌+◌, String, Bool, true, false, not, ◌&&◌, ◌||◌, Option, none, some, List, [], ◌∷◌, ◌++◌,
  map, leb, ltb, if◌then◌else◌,
}
use dsx_control_plane.Base.Lists.{select, find, take}
use dsx_control_plane.Text.{Text, ◌==◌, text}
use dsx_control_plane.Time.{lease_end}
use dsx_control_plane.Table.{always, row, update, delete}
use dsx_control_plane.Table.Order.{sort, first}
use dsx_control_plane.Db.{Db, tenant_of, job_of}
use dsx_control_plane.Db.States.{
  ProvisioningState, placed, dispatched, running, failed, retrying, EnvironmentKind, trial,
  same_kind, same_state,
}
use dsx_control_plane.Db.States.{TenantStatus, TrialState}
use dsx_control_plane.Db.Rows.{
  Template, Tenant, ProvisioningJob, Lease, AuditEvent, Payload, word, text as txt,
}
use dsx_control_plane.Http.{Env, Request, authenticate_node}
use dsx_control_plane.Http.Response.{Response, Operation, operation, fail, uncaught}
use dsx_control_plane.Provisioning.Machine.{can_transition, state_word}
use dsx_control_plane.Provisioning.DatabaseName.{provision_payload}
use dsx_control_plane.Provisioning.Tenants.{job_event}
use dsx_control_plane.Provisioning.Jobs.{active_template}

-- j.state IN ('dispatched', 'running')
unfoldable pub is_in_flight : ProvisioningState → Bool
is_in_flight dispatched = true
is_in_flight running = true
is_in_flight _ = false

-- j.state IN ('placed', 'retrying')
unfoldable pub is_claimable : ProvisioningState → Bool
is_claimable placed = true
is_claimable retrying = true
is_claimable _ = false

abbrev in_flight_row : Option ProvisioningJob → Bool
in_flight_row none = false
in_flight_row (some j) = is_in_flight j.state

unfoldable pub is_expired : Db → Text → ℕ → Lease → Bool
unfolding ◌==◌ row is_in_flight
is_expired db node_id now l =
    l.node_id == node_id && leb l.lease_expires_at now && in_flight_row (job_of db l.job_id)

abbrev pub expires_first : Lease → Lease → Bool
expires_first a b = ltb a.lease_expires_at b.lease_expires_at

unfoldable pub expired_leases : Text → ℕ → Db → List Lease
unfolding select sort is_expired
expired_leases node_id now db =
    take 20
      (sort expires_first (select (is_expired db node_id now) db.provisioning_operation_leases))

-- trial_state = CASE WHEN environment_kind = 'trial' THEN 'failed' ELSE trial_state END
unfoldable pub fail_tenant : ℕ → Tenant → Tenant
unfolding same_kind
fail_tenant now t = record t {
  status = TenantStatus.failed;
  trial_state =
      if same_kind t.environment_kind trial then some TrialState.failed else t.trial_state;
  updated_at = now;
}

abbrev pub expired_job : ℕ → ProvisioningJob → ProvisioningJob
expired_job now x = record x {
  state = failed;
  error_code = some (text "operation_lease_expired");
  updated_at = now;
  finished_at = some now;
}

-- The batch for one expired lease, whose job is `j`.
unfoldable pub expire_job : ProvisioningJob → Text → ℕ → Db → Db
unfolding update delete fail_tenant is_in_flight
expire_job j job_id now db = record db {
  provisioning_jobs =
      update (λ x. x.id) job_id (λ x. is_in_flight x.state) (expired_job now) db.provisioning_jobs;
  tenants = update (λ t. t.id) j.tenant_id always (fail_tenant now) db.tenants;
  provisioning_operation_leases = delete (λ l. l.job_id) job_id db.provisioning_operation_leases;
  provisioning_job_events =
      db.provisioning_job_events
      ++ job_event job_id "provisioning.failed" (some (state_word j.state)) "failed"
          (("error_code", word "operation_lease_expired") ∷ []) now
        ∷ [];
}

-- One round of the loop; `continue` where the job is not there.
unfoldable pub expire_lease : Text → ℕ → Db → Db
unfolding expire_job row
expire_lease job_id now db = elim (job_of db job_id) [
  | none ↦ db
  | some j ↦ expire_job j job_id now db
]

unfoldable pub expire_each : List Lease → ℕ → Db → Db
unfolding expire_lease
expire_each [] now db = db
expire_each (l ∷ ls) now db = expire_each ls now (expire_lease l.job_id now db)

unfoldable pub mark_expired_leases : Text → ℕ → Db → Db
unfolding expire_each expired_leases
mark_expired_leases node_id now db = expire_each (expired_leases node_id now db) now db

abbrev pub is_on : Option Text → Text → Bool
is_on none node_id = false
is_on (some n) node_id = n == node_id

abbrev pub is_absent : Option Lease → Bool
is_absent none = true
is_absent (some _) = false

-- The `WHERE` of the claim.
unfoldable pub is_available : Db → Text → ProvisioningJob → Bool
unfolding row ◌==◌ is_claimable
is_available db node_id j =
    is_on j.node_id node_id
    && is_claimable j.state
    && is_absent (row (λ l. l.job_id) j.id db.provisioning_operation_leases)

abbrev older : ProvisioningJob → ProvisioningJob → Bool
older a b = ltb a.created_at b.created_at

unfoldable pub next_job : Text → Db → Option ProvisioningJob
unfolding sort select is_available
next_job node_id db = first (sort older (select (is_available db node_id) db.provisioning_jobs))

-- `INSERT OR IGNORE`: the primary key and the unique token hash can make it a no-op.
unfoldable pub insert_lease : Lease → List Lease → Option (List Lease)
unfolding row ◌==◌
insert_lease l ls = elim (row (λ x. x.job_id) l.job_id ls) [
  | some _ ↦ none
  | none ↦ elim (row (λ x. x.lease_token_hash) l.lease_token_hash ls) [
    | some _ ↦ none
    | none ↦ some (ls ++ l ∷ [])
  ]
]

-- CHECK (attempt <= 100)
abbrev pub max_attempt : ℕ
max_attempt = 100

abbrev pub node_audit : String → String → Text → Text → Payload → ℕ → AuditEvent
node_audit event_type target_type node_id target_id payload at = record {
  event_type = event_type;
  actor_type = "node";
  actor_id = some node_id;
  target_type = target_type;
  target_id = target_id;
  payload = payload;
  created_at = at;
}

abbrev pub dispatched_job : ℕ → ProvisioningJob → ProvisioningJob
dispatched_job now x = record x {
  state = dispatched;
  attempt = x.attempt + 1;
  error_code = none;
  updated_at = now;
  finished_at = none;
}

abbrev pub still_claimed : ProvisioningJob → Text → ProvisioningJob → Bool
still_claimed j node_id x = is_on x.node_id node_id && same_state x.state j.state

-- The batch that dispatches a claimed job.
unfoldable pub dispatch_job : ProvisioningJob → Text → ℕ → Db → Option Db
unfolding update ◌==◌ same_state
dispatch_job j node_id now db =
    if leb max_attempt j.attempt
    then none
    else some (record db {
      provisioning_jobs =
          update (λ x. x.id) j.id (still_claimed j node_id) (dispatched_job now)
            db.provisioning_jobs;
      provisioning_job_events =
          db.provisioning_job_events
          ++ job_event j.id "provisioning.dispatched" (some (state_word j.state)) "dispatched"
              (("node_id", txt node_id) ∷ []) now
            ∷ [];
      audit_events =
          db.audit_events
          ++ node_audit "provisioning.operation.claimed" "provisioning_job" node_id j.id
              (("operation_type", word "provision_odoo_environment") ∷ []) now
            ∷ [];
    })
