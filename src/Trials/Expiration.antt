-- ===== src/Trials/Expiration.antt =====
-- deploy/cloudflare/src/trialExpiration.ts, which the scheduled handler of app.ts runs. The id that
-- is drawn for the clean-up of a trial is a function of the trial. A batch that fails throws, which
-- ends the run and keeps what the statements before it wrote.
use dsx_control_plane.Base.{
  ℕ, ◌+◌, String, Bool, true, false, ◌&&◌, Option, none, some, List, [], ◌∷◌, ◌++◌, leb, ltb,
  if◌then◌else◌,
}
use dsx_control_plane.Base.Lists.{select, take}
use dsx_control_plane.Text.{Text, ◌==◌, text, is_empty}
use dsx_control_plane.Table.{row, update}
use dsx_control_plane.Table.Order.{sort}
use dsx_control_plane.Db.{Db, node_of, tenant_of}
use dsx_control_plane.Db.States.{TenantStatus, TrialState, EnvironmentKind, same_kind, same_status}
use dsx_control_plane.Db.Rows.{Tenant, ProvisioningJob, AuditEvent, Payload, word, text as txt}
use dsx_control_plane.Http.{is_live}
use dsx_control_plane.Provisioning.Tenants.{job_event}
use dsx_control_plane.Cleanup.Jobs.{
  Cleanable, cleanup_of_tenant, non_empty, last_ready_job, check_node, new_cleanup, insert_cleanup,
}

abbrev pub batch_size : ℕ
batch_size = 50

abbrev pub is_trial : Tenant → Bool
is_trial t = same_kind t.environment_kind EnvironmentKind.trial

abbrev pub is_active : Option TrialState → Bool
is_active (some TrialState.active) = true
is_active _ = false

abbrev pub is_expired : Option TrialState → Bool
is_expired (some TrialState.expired) = true
is_expired _ = false

abbrev pub until : Option ℕ → ℕ → Bool
until none now = false
until (some at) now = leb at now

unfoldable pub is_trial_due : Tenant → ℕ → Bool
unfolding same_status
is_trial_due t now =
    same_status t.status TenantStatus.ready
    && is_active t.trial_state
    && until t.trial_expires_at now

-- The `WHERE` of the statement that expires a trial.
unfoldable pub is_running_trial : Tenant → Bool
unfolding same_status same_kind
is_running_trial t =
    is_trial t && same_status t.status TenantStatus.ready && is_active t.trial_state

abbrev pub expired_tenant : ℕ → Tenant → Tenant
expired_tenant now t = record t {
  status = TenantStatus.suspended;
  trial_state = some TrialState.expired;
  trial_expired_at = some now;
  updated_at = now;
}

abbrev pub system_audit : String → String → Text → Payload → ℕ → AuditEvent
system_audit event_type target_type target_id payload at = record {
  event_type = event_type;
  actor_type = "system";
  actor_id = some (text "trial-expiration");
  target_type = target_type;
  target_id = target_id;
  payload = payload;
  created_at = at;
}

abbrev holds : (Tenant → Bool) → Option Tenant → Bool
holds p none = false
holds p (some t) = p t

-- The update, then the audit event where it changed a row.
unfoldable pub mark_trial_expired : Text → ℕ → Db → Db
unfolding update row is_running_trial ◌==◌
mark_trial_expired id now db =
    if holds is_running_trial (tenant_of db id)
    then record db {
      tenants = update (λ t. t.id) id is_running_trial (expired_tenant now) db.tenants;
      audit_events = db.audit_events ++ system_audit "trial.expired" "tenant" id [] now ∷ [];
    }
    else db

unfoldable pub marks : Text → Db → Bool
unfolding row is_running_trial ◌==◌
marks id db = holds is_running_trial (tenant_of db id)

unfoldable pub is_expired_trial : Tenant → Bool
unfolding same_status same_kind
is_expired_trial t =
    is_trial t && same_status t.status TenantStatus.suspended && is_expired t.trial_state

abbrev pub pending_tenant : ℕ → Tenant → Tenant
pending_tenant now t = record t { trial_state = some TrialState.cleanup_pending; updated_at = now }

-- UPDATE tenants SET trial_state = 'cleanup_pending' ... WHERE id = ? AND trial_state = 'expired'
abbrev pub set_pending : Text → ℕ → List Tenant → List Tenant
set_pending id now ts =
    update (λ t. t.id) id (λ t. is_expired t.trial_state) (pending_tenant now) ts

-- The batch that queues a clean-up; `none` is a violated constraint.
unfoldable pub queue_trial_cleanup : Cleanable → Text → ℕ → Db → Option Db
unfolding insert_cleanup update
queue_trial_cleanup c id now db = elim (insert_cleanup (new_cleanup c id now) db.cleanup_jobs) [
  | none ↦ none
  | some js ↦ some (record db {
    cleanup_jobs = js;
    tenants = set_pending c.tenant.id now db.tenants;
    cleanup_job_events =
        db.cleanup_job_events
        ++ job_event id "cleanup.queued" none "queued"
            (("database_name", txt c.database_name)
              ∷ ("node_id", txt c.node_id)
              ∷ ("reason", word "trial_expired")
              ∷ [])
            now
          ∷ [];
    audit_events =
        db.audit_events
        ++ system_audit "cleanup.job.created" "cleanup_job" id
            (("tenant_id", txt c.tenant.id)
              ∷ ("provisioning_job_id", txt c.provisioned.id)
              ∷ ("reason", word "trial_expired")
              ∷ [])
            now
          ∷ [];
  })
]

-- What one trial comes to.
pub data Queued : Type 0 where
  queued : Db → Queued
  passed : Queued
  thrown : Queued

abbrev pub cleanable : Tenant → Text → Text → ProvisioningJob → Cleanable
cleanable t node_id database_name p = record {
  tenant = t;
  provisioned = p;
  node_id = node_id;
  database_name = database_name;
}

abbrev committed : Option Db → Queued
committed none = thrown
committed (some db) = queued db

-- The part of the function after the tenant's columns are tested.
unfoldable pub queue_on_node :
    Tenant → Text → Text → Option ProvisioningJob → Text → ℕ → Db → Queued
unfolding queue_trial_cleanup row ◌==◌ is_empty is_live
queue_on_node t node_id database_name none cleanup_id now db = passed
queue_on_node t node_id database_name (some p) cleanup_id now db =
    if check_node p.node_id node_id && is_live (node_of db node_id)
    then committed (queue_trial_cleanup (cleanable t node_id database_name p) cleanup_id now db)
    else passed

unfoldable pub queue_for_tenant : Tenant → Text → ℕ → Db → Queued
unfolding queue_on_node non_empty last_ready_job row update ◌==◌
queue_for_tenant t cleanup_id now db = elim (non_empty t.assigned_node_id) [
  | none ↦ passed
  | some node_id ↦ elim (non_empty t.database_name) [
    | none ↦ passed
    | some database_name ↦ elim (cleanup_of_tenant db t.id) [
      | some _ ↦ queued (record db { tenants = set_pending t.id now db.tenants })
      | none ↦ queue_on_node t node_id database_name (last_ready_job db t.id) cleanup_id now db
    ]
  ]
]

unfoldable pub queue_expired_trial_cleanup : Text → Text → ℕ → Db → Queued
unfolding queue_for_tenant is_expired_trial row
queue_expired_trial_cleanup id cleanup_id now db = elim (tenant_of db id) [
  | none ↦ passed
  | some t ↦ if is_expired_trial t then queue_for_tenant t cleanup_id now db else passed
]

-- The tenants that the first query selects.
unfoldable pub is_selected : ℕ → Tenant → Bool
unfolding is_running_trial
is_selected now t = is_running_trial t && until t.trial_expires_at now

abbrev at_or : Option ℕ → ℕ → ℕ
at_or none d = d
at_or (some a) d = a

abbrev pub expires_earlier : Tenant → Tenant → Bool
expires_earlier a b = ltb (at_or a.trial_expires_at 0) (at_or b.trial_expires_at 0)

-- COALESCE(trial_expired_at, updated_at)
abbrev pub expired_earlier : Tenant → Tenant → Bool
expired_earlier a b =
    ltb (at_or a.trial_expired_at a.updated_at) (at_or b.trial_expired_at b.updated_at)

unfoldable pub due_trials : ℕ → Db → List Tenant
unfolding sort select is_selected
due_trials now db = take batch_size (sort expires_earlier (select (is_selected now) db.tenants))

unfoldable pub awaiting_cleanup : Db → List Tenant
unfolding sort select is_expired_trial
awaiting_cleanup db = take batch_size (sort expired_earlier (select is_expired_trial db.tenants))

abbrev pub bump : Bool → ℕ → ℕ
bump true n = n + 1
bump false n = n

-- The first loop, with its count.
unfoldable pub expire_trials : List Tenant → ℕ → ℕ → Db → ℕ × Db
unfolding mark_trial_expired is_trial_due marks
expire_trials [] now n db = (n, db)
expire_trials (t ∷ ts) now n db =
    let due = is_trial_due t now in
    let rest =
      expire_trials ts now (bump (due && marks t.id db) n)
        (if due then mark_trial_expired t.id now db else db) in
    rest

-- The second loop; `none` for a count where it threw.
unfoldable pub queue_cleanups : (Text → Text) → List Tenant → ℕ → ℕ → Db → Option ℕ × Db
unfolding queue_expired_trial_cleanup
queue_cleanups ids [] now n db = (some n, db)
queue_cleanups ids (t ∷ ts) now n db = elim (queue_expired_trial_cleanup t.id (ids t.id) now db) [
  | queued after ↦ queue_cleanups ids ts now (n + 1) after
  | passed ↦ queue_cleanups ids ts now n db
  | thrown ↦ (none, db)
]

pub record Reconciled : Type 0 where
  pub expired : ℕ
  pub cleanup_queued : Option ℕ
  pub after : Db

unfoldable pub reconcile_expired_trials : (Text → Text) → ℕ → Db → Reconciled
unfolding expire_trials queue_cleanups due_trials awaiting_cleanup
reconcile_expired_trials ids now db =
    let first_loop = expire_trials (due_trials now db) now 0 db in
    let second_loop = queue_cleanups ids (awaiting_cleanup first_loop.1) now 0 first_loop.1 in
    record { expired = first_loop.0; cleanup_queued = second_loop.0; after = second_loop.1 }
