-- ===== src/Cleanup/Requests.antt =====
-- What `requestCleanup` of deploy/cloudflare/src/cleanup.ts accepts, and the same request again.
use mathlib.Core.Path.{subst}
use dsx_control_plane.Base.{
  ℕ, ◌≡◌, ◌≢◌, sym, inl, inr, refl, true, Option, none, some, arith, ok, err, Result-cases,
  Option-cases,
}
use dsx_control_plane.Text.{Text, ==_iff, ==_refl}
use dsx_control_plane.Table.{row, row-append, row-update, key-row}
use dsx_control_plane.Db.{Db, node_of, tenant_of, cleanup_of}
use dsx_control_plane.Db.States.{
  CleanupState, EnvironmentKind, TenantStatus, same_kind, same_status,
}
use dsx_control_plane.Db.Rows.{Tenant, CleanupJob}
use dsx_control_plane.Http.{Env, Request, is_live, is_admin}
use dsx_control_plane.Http.Response.{Response, cleanup_job}
use dsx_control_plane.Cleanup.Jobs.{
  Cleanable, cleanup_of_tenant, check_request, non_empty, cleanup_eligibility, last_ready_job,
  new_cleanup, suspended, queue_cleanup, request_cleanup, check_node, insert_cleanup,
}
use dsx_control_plane.Cleanup.Effects.{job-queue_cleanup}

same_kind_test :
    (k : EnvironmentKind) → same_kind k EnvironmentKind.test ≡ true → k ≡ EnvironmentKind.test
unfolding same_kind
same_kind_test k h = ground arith

same_status_ready :
    (s : TenantStatus) → same_status s TenantStatus.ready ≡ true → s ≡ TenantStatus.ready
unfolding same_status
same_status_ready s h = ground arith

non_empty-eq-some : (o : Option Text) (s : Text) → non_empty o ≡ some s → o ≡ some s
unfolding non_empty
non_empty-eq-some o s h = ground arith

-- What a request that is accepted finds, and what it leaves: `c` is what it found.
pub record IsQueued (c : Cleanable) (tenant id : Text) (now : ℕ) (db after : Db) : Type 0 where
  pub owner : tenant_of db tenant ≡ some c.tenant
  pub is_test : c.tenant.environment_kind ≡ EnvironmentKind.test
  pub was_ready : c.tenant.status ≡ TenantStatus.ready
  pub assigned : c.tenant.assigned_node_id ≡ some c.node_id
  pub named : c.tenant.database_name ≡ some c.database_name
  pub provisioned : last_ready_job db tenant ≡ some c.provisioned
  pub same_node : c.provisioned.node_id ≡ some c.node_id
  pub live : is_live (node_of db c.node_id) ≡ true
  pub first_cleanup : cleanup_of_tenant db tenant ≡ none
  pub job :
      cleanup_of after id
      ≡ some (record {
        id = id;
        tenant_id = c.tenant.id;
        provisioning_job_id = c.provisioned.id;
        template_id = c.provisioned.template_id;
        node_id = c.node_id;
        database_name = c.database_name;
        state = CleanupState.queued;
        error_code = none;
        created_at = now;
        updated_at = now;
        started_at = none;
        finished_at = none;
      })
  pub suspends :
      tenant_of after tenant
      ≡ some (record c.tenant { status = TenantStatus.suspended; updated_at = now })

check_request-eligible :
    (env : Env) (r : Request) (tenant : Text) (db : Db) (c : Cleanable)
    → check_request env r tenant db ≡ ok c
    → (tenant_of db tenant ≡ some c.tenant) × (cleanup_eligibility c.tenant ≡ none)
unfolding check_request
check_request-eligible env r tenant db c h = (ground arith, ground arith)

check_request-columns :
    (env : Env) (r : Request) (tenant : Text) (db : Db) (c : Cleanable)
    → check_request env r tenant db ≡ ok c
    → (non_empty c.tenant.assigned_node_id ≡ some c.node_id)
      × (non_empty c.tenant.database_name ≡ some c.database_name)
unfolding check_request
check_request-columns env r tenant db c h = (ground arith, ground arith)

check_request-provisioned :
    (env : Env) (r : Request) (tenant : Text) (db : Db) (c : Cleanable)
    → check_request env r tenant db ≡ ok c
    → (last_ready_job db tenant ≡ some c.provisioned)
      × (check_node c.provisioned.node_id c.node_id ≡ true)
      × (is_live (node_of db c.node_id) ≡ true)
      × (cleanup_of_tenant db tenant ≡ none)
unfolding check_request
check_request-provisioned env r tenant db c h =
    (ground arith, ground arith, ground arith, ground arith)

check_node-eq : (o : Option Text) (s : Text) → check_node o s ≡ true → o ≡ some s
check_node-eq none s h = cc
check_node-eq (some n) s h = ground (arith, ==_iff n s)

eligible :
    (t : Tenant)
    → cleanup_eligibility t ≡ none
    → (t.environment_kind ≡ EnvironmentKind.test) × (t.status ≡ TenantStatus.ready)
unfolding cleanup_eligibility
eligible t h =
    (ground (arith, same_kind_test t.environment_kind), ground (arith, same_status_ready t.status))

check_request-refused :
    (env : Env) (r : Request) (tenant : Text) (db : Db) (e : Response)
    → check_request env r tenant db ≡ err e
    → e.status ≢ 201
unfolding check_request
check_request-refused env r tenant db e h = ground arith

queue_cleanup-job :
    (c : Cleanable) (id : Text) (now : ℕ) (db db' : Db)
    → queue_cleanup c id now db ≡ some db'
    → cleanup_of db' id ≡ some (new_cleanup c id now)
queue_cleanup-job c id now db db' h =
    ground (arith, job-queue_cleanup id c id now db db' h, ==_refl id)

queue_cleanup-tenant :
    (c : Cleanable) (id : Text) (now : ℕ) (db db' : Db)
    → queue_cleanup c id now db ≡ some db'
    → tenant_of db c.tenant.id ≡ some c.tenant
    → c.tenant.status ≡ TenantStatus.ready
    → tenant_of db' c.tenant.id ≡ some (suspended now c.tenant)
unfolding queue_cleanup same_status
queue_cleanup-tenant c id now db db' h found s = ground (
  arith,
  row-update (λ t. t.id) (λ t. same_status t.status TenantStatus.ready) (suspended now) (λ t. refl)
      c.tenant.id c.tenant.id db.tenants,
  ==_refl c.tenant.id,
)

queue_cleanup-of_tenant :
    (c : Cleanable) (id : Text) (now : ℕ) (db db' : Db)
    → queue_cleanup c id now db ≡ some db'
    → cleanup_of_tenant db' c.tenant.id ≡ some (new_cleanup c id now)
unfolding queue_cleanup insert_cleanup
queue_cleanup-of_tenant c id now db db' h = ground (
  arith,
  row-append (λ j. j.tenant_id) c.tenant.id db.cleanup_jobs (new_cleanup c id now),
  ==_refl c.tenant.id,
)

queue_cleanup-IsQueued :
    (env : Env) (r : Request) (tenant id : Text) (now : ℕ) (db db' : Db) (c : Cleanable)
    → check_request env r tenant db ≡ ok c
    → queue_cleanup c id now db ≡ some db'
    → IsQueued c tenant id now db db'
queue_cleanup-IsQueued env r tenant id now db db' c h k =
    let (owner, fit) = check_request-eligible env r tenant db c h in
    let (kind, status) = eligible c.tenant fit in
    let (node, name) = check_request-columns env r tenant db c h in
    let (provisioned, same, live, free) = check_request-provisioned env r tenant db c h in
    let own = key-row (λ t. t.id) tenant db.tenants {r = c.tenant} owner in
    record {
      owner = owner;
      is_test = kind;
      was_ready = status;
      assigned = non_empty-eq-some c.tenant.assigned_node_id c.node_id node;
      named = non_empty-eq-some c.tenant.database_name c.database_name name;
      provisioned = provisioned;
      same_node = check_node-eq c.provisioned.node_id c.node_id same;
      live = live;
      first_cleanup = free;
      job = queue_cleanup-job c id now db db' k;
      suspends =
          subst (λ x. tenant_of db' x ≡ some (suspended now c.tenant)) own
            (queue_cleanup-tenant c id now db db' k
              (subst (λ x. tenant_of db x ≡ some c.tenant) (sym own) owner) status);
    }

-- A clean-up is accepted only for a tenant of the kind `test` that is ready and has had no clean-up,
-- with a database and with an active node, on which its last ready provisioning job ran. It leaves
-- a queued job for that node and database, and suspends the tenant.
pub request_cleanup-IsQueued :
    (env : Env) (r : Request) (tenant id : Text) (now : ℕ) (db : Db)
    → (request_cleanup env r tenant id now db).0.status ≡ 201
    → (c : Cleanable) × IsQueued c tenant id now db (request_cleanup env r tenant id now db).1
unfolding request_cleanup row
request_cleanup-IsQueued env r tenant id now db h =
    elim (Result-cases (check_request env r tenant db)) [
      | inl (e, f) ↦ absurd (check_request-refused env r tenant db e f (ground arith))
      | inr (c, f) ↦ elim (Option-cases (queue_cleanup c id now db)) [
        | inl n ↦ absurd (ground arith)
        | inr (db', n) ↦ (
          c,
          rw (request_cleanup, f, n) (queue_cleanup-IsQueued env r tenant id now db db' c f n),
        )
      ]
    ]

check_request-admin :
    (env : Env) (r : Request) (tenant : Text) (db : Db) (c : Cleanable)
    → check_request env r tenant db ≡ ok c
    → is_admin env r ≡ true
unfolding check_request
check_request-admin env r tenant db c h = ground arith

check_request-replay :
    (env : Env) (r : Request) (tenant : Text) (db : Db) (j : CleanupJob)
    → is_admin env r ≡ true
    → cleanup_of_tenant db tenant ≡ some j
    → check_request env r tenant db
      ≡ err (record { status = 200; body = cleanup_job (some j) true })
unfolding check_request
check_request-replay env r tenant db j a found = ground arith

-- A request that queued a clean-up, sent again with any other drawn id at any later time, is
-- answered with that clean-up job and `idempotent_replay: true`, and changes nothing.
pub request_cleanup-again :
    (env : Env) (r : Request) (tenant id id' : Text) (now now' : ℕ) (db : Db)
    → (request_cleanup env r tenant id now db).0.status ≡ 201
    → (j : CleanupJob) × (cleanup_of (request_cleanup env r tenant id now db).1 id ≡ some j)
      × (request_cleanup env r tenant id' now' (request_cleanup env r tenant id now db).1 ≡ (
        record { status = 200; body = cleanup_job (some j) true },
        (request_cleanup env r tenant id now db).1,
      ))
unfolding request_cleanup row
request_cleanup-again env r tenant id id' now now' db h =
    elim (Result-cases (check_request env r tenant db)) [
      | inl (e, f) ↦ absurd (check_request-refused env r tenant db e f (ground arith))
      | inr (c, f) ↦ elim (Option-cases (queue_cleanup c id now db)) [
        | inl n ↦ absurd (ground arith)
        | inr (db', n) ↦
            let own =
              key-row (λ t. t.id) tenant db.tenants {r = c.tenant}
                (check_request-eligible env r tenant db c f).0 in
            let found =
              subst (λ x. cleanup_of_tenant db' x ≡ some (new_cleanup c id now)) own
                (queue_cleanup-of_tenant c id now db db' n) in
            let again =
              check_request-replay env r tenant db' (new_cleanup c id now)
                (check_request-admin env r tenant db c f) found in
            (
              new_cleanup c id now,
              rw (request_cleanup, f, n) (queue_cleanup-job c id now db db' n),
              rw (request_cleanup, f, n, again),
            )
      ]
    ]
