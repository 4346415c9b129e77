-- ===== src/Provisioning/Protocol/Moves.antt =====
-- Every route moves each job along `TRANSITIONS`, and keeps jobs and leases together.
use mathlib.Core.Path.{subst}
use mathlib.Core.Option.{some-injective}
use dsx_control_plane.Base.{
  Result-cases, ℕ, ◌≡◌, refl, sym, inl, inr, true, Option, some, arith, Option-cases, Bool-cases,
  ok, err,
}
use dsx_control_plane.Text.{Text}
use dsx_control_plane.Time.{lease_end}
use dsx_control_plane.Table.{row, key-row}
use dsx_control_plane.Db.{Db, job_of, lease_of}
use dsx_control_plane.Db.States.{placed, failed, ready}
use dsx_control_plane.Db.Rows.{ProvisioningJob, Lease}
use dsx_control_plane.Http.{Env, Request}
use dsx_control_plane.Http.Response.{Response, Handled, settle}
use dsx_control_plane.Provisioning.Machine.{can_transition}
use dsx_control_plane.Provisioning.Tenants.{create_tenant}
use dsx_control_plane.Provisioning.Jobs.{
  Placed, check_job_input, check_job_request, place_job, create_provisioning_job,
}
use dsx_control_plane.Trials.Hostname.{trial_hostname}
use dsx_control_plane.Trials.Requests.{check_trial, add_trial, create_trial}
use dsx_control_plane.Provisioning.Retry.{check_retry, retry_provisioning_job}
use dsx_control_plane.Provisioning.Results.{
  Reported, OperationResultInput, running, ready, failed, state_of,
}
use dsx_control_plane.Provisioning.Operations.{fail_tenant}
use dsx_control_plane.Provisioning.Operations.Claim.{Source}
use dsx_control_plane.Provisioning.Operations.Report.{
  holds_lease, check_report, apply_report, report_operation_result, name_taken, set_tenant,
  ready_tenant, write_result,
}
use dsx_control_plane.Provisioning.Protocol.{
  Step, create_tenants, create_jobs, create_trials, retries, claims, reports, asks, approves,
  places, Reach, here, next, IsTracked, follows, reached_ready,
}
use dsx_control_plane.Provisioning.Protocol.Batches.{
  MovesAt, Moves-refl, place_job-Moves, add_trial-Moves, requeue-Moves, renew_lease-Moves,
  start_job-Moves, finish_job-Moves,
}
use dsx_control_plane.Provisioning.Protocol.Converting.{
  create_conversion-Moves, approve_clean_production_conversion-Moves, place_production-Moves,
}
use dsx_control_plane.Provisioning.Protocol.Claims.{claim_next_operation-Moves}

check_job_request-placed :
    (env : Env) (r : Request) (id : Text) (now : ℕ) (db : Db) (p : Placed)
    → check_job_request env r id now db ≡ ok p
    → p.created.state ≡ placed
unfolding check_job_request check_job_input
check_job_request-placed env r id now db p h = ground arith

pub check_retry-failed :
    (env : Env) (r : Request) (k : Text) (db : Db) (j : ProvisioningJob) (node : Text)
    → check_retry env r k db ≡ ok (j, node)
    → (job_of db k ≡ some j) × (j.state ≡ failed)
unfolding check_retry
check_retry-failed env r k db j node h = (ground arith, ground arith)

pub holds_lease-eq-some :
    (db : Db) (k node hash : Text) (now : ℕ)
    → holds_lease db k node hash now ≡ true
    → (l : Lease) × (lease_of db k ≡ some l)
unfolding holds_lease
holds_lease-eq-some db k node hash now h = elim (Option-cases (lease_of db k)) [
  | inl e ↦ absurd (ground arith)
  | inr found ↦ found
]

pub check_report-held :
    (env : Env) (r : Request) (node k : Text) (now : ℕ) (db : Db) (input : OperationResultInput)
    (c : Source)
    → check_report env r node k now db ≡ ok (input, c)
    → (job_of db k ≡ some c.job) × ((l : Lease) × (lease_of db k ≡ some l))
unfolding check_report
check_report-held env r node k now db input c h =
    (ground arith, holds_lease-eq-some db k node (env.sha256 input.lease_token) now (ground arith))

module _ (i : Text) where
  create_tenant-Moves :
      (env : Env) (r : Request) (id : Text) (now : ℕ) (db : Db)
      → MovesAt i db (create_tenant env r id now db).1
  unfolding create_tenant row
  create_tenant-Moves env r id now db = ground (arith, Moves-refl (job_of db i) (lease_of db i))

  create_provisioning_job-Moves :
      (env : Env) (r : Request) (id : Text) (now : ℕ) (db : Db)
      → MovesAt i db (create_provisioning_job env r id now db).1
  unfolding create_provisioning_job row
  create_provisioning_job-Moves env r id now db =
      elim (Result-cases (check_job_request env r id now db)) [
        | inl (e, h) ↦ rw (create_provisioning_job, h) (Moves-refl _ _)
        | inr (p, h) ↦ elim (Option-cases (place_job p.created p.node_id p.template db)) [
          | inl k ↦ rw (create_provisioning_job, h, k) (Moves-refl _ _)
          | inr (db', k) ↦
              rw (create_provisioning_job, h, k)
                (place_job-Moves i p.created p.node_id p.template db db'
                  (check_job_request-placed env r id now db p h) k)
        ]
      ]

  create_trial-Moves :
      (env : Env) (r : Request) (id job : Text) (now : ℕ) (db : Db)
      → MovesAt i db (create_trial env r id job now db).1
  unfolding create_trial row
  create_trial-Moves env r id job now db = elim (Result-cases (check_trial env r now db)) [
    | inl (e, h) ↦ rw (create_trial, h) (Moves-refl _ _)
    | inr (p, h) ↦
        let hostname = trial_hostname p.input.slug env.trial_base_domain in
        elim (Option-cases (add_trial p id job hostname now db)) [
          | inl k ↦ rw (create_trial, h, k) (Moves-refl _ _)
          | inr (db', k) ↦
              rw (create_trial, h, k) (add_trial-Moves i p id job hostname now db db' k)
        ]
  ]

  retry_provisioning_job-Moves :
      (env : Env) (r : Request) (k : Text) (now : ℕ) (db : Db)
      → MovesAt i db (retry_provisioning_job env r k now db).1
  unfolding retry_provisioning_job row
  retry_provisioning_job-Moves env r k now db = elim (Result-cases (check_retry env r k db)) [
    | inl (e, h) ↦ rw (retry_provisioning_job, h) (Moves-refl _ _)
    | inr ((j, node), h) ↦
        let (found, s) = check_retry-failed env r k db j node h in
        let same = key-row (λ x. x.id) k db.provisioning_jobs {r = j} found in
        rw (retry_provisioning_job, h)
          (requeue-Moves i j node now db (subst (λ x. job_of db x ≡ some j) (sym same) found) s)
  ]

  settle-Moves :
      (db : Db) (m : Handled)
      → ((x : Response × Db) → m ≡ ok x → MovesAt i db x.1)
      → MovesAt i db (settle db m).1
  settle-Moves db (ok x) h = h x refl
  settle-Moves db (err e) h = Moves-refl _ _

  module _ (env : Env) (input : OperationResultInput) (c : Source) (node k : Text) (now : ℕ)
      (db : Db) (found : job_of db k ≡ some c.job) (l : Lease) (held : lease_of db k ≡ some l) where
    write_result-Moves :
        (s : Reported) (until : ℕ) (db' : Db)
        → input.state ≡ s
        → can_transition c.job.state (state_of input.state) ≡ true
        → write_result s input c.job node k until now db ≡ some db'
        → MovesAt i db db'
    unfolding write_result
    write_result-Moves running until db' e free h = subst (MovesAt i db) (some-injective _ _ h) (
        start_job-Moves i c.job k until now db found
          (subst (λ x. can_transition c.job.state (state_of x) ≡ true) e free) l held)
    write_result-Moves ready until db' e free h =
        elim (Bool-cases (name_taken c.job.tenant_id input.database_name db.tenants)) [
          | inl t ↦ absurd (ground arith)
          | inr t ↦ subst (MovesAt i db) (some-injective _ _ (rw t at h)) (
              finish_job-Moves i input c.job node k now
                (set_tenant c.job.tenant_id (ready_tenant input.database_name now) db) db found free
                (rw e))
        ]
    write_result-Moves failed until db' e free h = subst (MovesAt i db) (some-injective _ _ h) (
        finish_job-Moves i input c.job node k now (set_tenant c.job.tenant_id (fail_tenant now) db)
          db found free (rw e))

    apply_report-Moves : MovesAt i db (settle db (apply_report env input c node k now db)).1
    unfolding apply_report row
    apply_report-Moves =
        let until = lease_end env.node_operation_lease_seconds now in
        elim (Option-cases (write_result input.state input c.job node k until now db)) [
          | inl e ↦
              ground (
                arith,
                Moves-refl (job_of db i) (lease_of db i),
                renew_lease-Moves i k until now db,
              )
          | inr (db', e) ↦ ground (
            arith,
            Moves-refl (job_of db i) (lease_of db i),
            renew_lease-Moves i k until now db,
            λ (free : can_transition c.job.state (state_of input.state) ≡ true).
                write_result-Moves input.state until db' refl free e,
          )
        ]

  report_operation_result-Moves :
      (env : Env) (r : Request) (node k : Text) (now : ℕ) (db : Db)
      → MovesAt i db (report_operation_result env r node k now db).1
  unfolding report_operation_result row
  report_operation_result-Moves env r node k now db =
      elim (Result-cases (check_report env r node k now db)) [
        | inl (e, h) ↦ rw (report_operation_result, h) (Moves-refl _ _)
        | inr ((input, c), h) ↦
            let (found, (l, held)) = check_report-held env r node k now db input c h in
            rw (report_operation_result, h)
              (apply_report-Moves env input c node k now db found l held)
      ]

  pub Step-Moves : (env : Env) (db : Db) {db' : Db} → Step env db db' → MovesAt i db db'
  Step-Moves env db (create_tenants r id now) = create_tenant-Moves env r id now db
  Step-Moves env db (create_jobs r id now) = create_provisioning_job-Moves env r id now db
  Step-Moves env db (create_trials r id job now) = create_trial-Moves env r id job now db
  Step-Moves env db (retries r job now) = retry_provisioning_job-Moves env r job now db
  Step-Moves env db (claims r node token now) = claim_next_operation-Moves i env node token now r db
  Step-Moves env db (reports r node job now) = report_operation_result-Moves env r node job now db
  Step-Moves env db (asks r trial id now) = create_conversion-Moves i env r trial id now db
  Step-Moves env db (approves r trial conversion target job now) =
      approve_clean_production_conversion-Moves i env r trial conversion target job now db
  Step-Moves env db (places r trial conversion now) =
      place_production-Moves i env r trial conversion now db

-- Whatever the request on tenants, trials, conversions or provisioning jobs, and its answer, each
-- job keeps its state or takes a transition that `TRANSITIONS` allows, no job goes away, and a job
-- that appears is queued or placed.
pub Step-follows :
    (env : Env) (db db' : Db)
    → Step env db db'
    → (i : Text) → follows (job_of db i) (job_of db' i) ≡ true
Step-follows env db db' s i = (Step-Moves i env db s).follow

Step-IsTracked : (env : Env) (db : Db) {db' : Db} → Step env db db' → IsTracked db → IsTracked db'
Step-IsTracked env db s t i = (Step-Moves i env db s).track (t i)

-- From a database in which each job in flight has a lease and each lease belongs to an open job
-- on its node, any sequence of requests leads to such a database.
pub Reach-IsTracked :
    (env : Env) (start db : Db) → Reach env start db → IsTracked start → IsTracked db
Reach-IsTracked env start db here t = t
Reach-IsTracked env start db (next {db = before} reach step) t =
    Step-IsTracked env before step (Reach-IsTracked env start before reach t)

ready_stays :
    (a b : Option ProvisioningJob)
    → follows a b ≡ true
    → reached_ready a ≡ true
    → reached_ready b ≡ true
unfolding follows
ready_stays a b f h = ground arith

-- A job that is ready stays ready, whatever requests follow.
pub Reach-ready :
    (env : Env) (start db : Db)
    → Reach env start db
    → (i : Text) → reached_ready (job_of start i) ≡ true
    → reached_ready (job_of db i) ≡ true
Reach-ready env start db here i h = h
Reach-ready env start db (next {db = before} reach step) i h =
    ready_stays (job_of before i) (job_of db i) (Step-follows env before db step i)
      (Reach-ready env start before reach i h)
