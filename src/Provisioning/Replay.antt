-- ===== src/Provisioning/Replay.antt =====
-- Requests that are sent twice.
use dsx_control_plane.Base.{
  ℕ, ◌≡◌, ◌≢◌, inl, inr, Bool, true, none, some, List, [], ◌∷◌, ◌++◌, arith, ok, err, >>=-eq-ok,
  Result-cases, Option-cases,
}
use dsx_control_plane.Base.Lists.{find}
use dsx_control_plane.Text.{Text, ==_refl}
use dsx_control_plane.Table.{row, key-row}
use dsx_control_plane.Db.{Db, tenant_of, job_of}
use dsx_control_plane.Db.States.{failed, same_state}
use dsx_control_plane.Db.Rows.{Template, ProvisioningJob}
use dsx_control_plane.Http.{Env, Request}
use dsx_control_plane.Http.Response.{Response, job}
use dsx_control_plane.Provisioning.Inputs.{ProvisioningJobInput}
use dsx_control_plane.Provisioning.Effects.{job-place_job, job-requeue}
use dsx_control_plane.Provisioning.Retry.{
  retrying_job, requeue, check_retry, retry_provisioning_job,
}
use dsx_control_plane.Provisioning.Protocol.Moves.{check_retry-failed}
use dsx_control_plane.Provisioning.Jobs.{
  by_key, job_by_key, Placed, parse_job_request, check_job_input, check_job_request, place_job,
  create_provisioning_job,
}

find-append :
    (p : ProvisioningJob → Bool) (js : List ProvisioningJob) (j : ProvisioningJob)
    → find p js ≡ none
    → p j ≡ true
    → find p (js ++ j ∷ []) ≡ some j
unfolding find
find-append p [] j h t = ground arith
find-append p (x ∷ js) j h t = ground (arith, find-append p js j)

by_key_self : (j : ProvisioningJob) → by_key j.tenant_id j.idempotency_key j ≡ true
by_key_self j = ground (arith, ==_refl j.tenant_id, ==_refl j.idempotency_key)

job_by_key-place_job :
    (j : ProvisioningJob) (node : Text) (p : Template) (db db' : Db)
    → place_job j node p db ≡ some db'
    → job_by_key db' j.tenant_id j.idempotency_key ≡ some j
unfolding place_job
job_by_key-place_job j node p db db' h = ground (
  arith,
  find-append (by_key j.tenant_id j.idempotency_key) db.provisioning_jobs j,
  by_key_self j,
)

check_job_input-key :
    (env : Env) (input : ProvisioningJobInput) (id : Text) (now : ℕ) (db : Db) (p : Placed)
    → check_job_input env input id now db ≡ ok p
    → (p.created.tenant_id ≡ input.tenant_id)
      × (p.created.idempotency_key ≡ input.idempotency_key)
      × (p.created.id ≡ id)
unfolding check_job_input
check_job_input-key env input id now db p h = elim (Option-cases (tenant_of db input.tenant_id)) [
  | inl e ↦ absurd (ground arith)
  | inr (t, e) ↦ (
    ground (arith, key-row (λ x. x.id) input.tenant_id db.tenants {r = t} e),
    ground arith,
    ground arith,
  )
]

check_job_request-err :
    (env : Env) (r : Request) (id : Text) (now : ℕ) (db : Db) (e : Response)
    → check_job_request env r id now db ≡ err e
    → e.status ≢ 201
unfolding check_job_request parse_job_request check_job_input
check_job_request-err env r id now db e h = ground arith

check_job_request-id :
    (env : Env) (r : Request) (id : Text) (now : ℕ) (db : Db) (p : Placed)
    → check_job_request env r id now db ≡ ok p
    → p.created.id ≡ id
unfolding check_job_request
check_job_request-id env r id now db p h =
    let (input, parsed, checked) = >>=-eq-ok (parse_job_request env r) _ h in
    (check_job_input-key env input id now db p checked).2

check_job_request-again :
    (env : Env) (r : Request) (id id' : Text) (now now' : ℕ) (db db' : Db) (p : Placed)
    → check_job_request env r id now db ≡ ok p
    → job_by_key db' p.created.tenant_id p.created.idempotency_key ≡ some p.created
    → check_job_request env r id' now' db'
      ≡ err (record { status = 200; body = job (some p.created) true })
unfolding check_job_request
check_job_request-again env r id id' now now' db db' p h found =
    let (input, parsed, checked) = >>=-eq-ok (parse_job_request env r) _ h in
    let (t, k, _) = check_job_input-key env input id now db p checked in
    rw parsed (unfold check_job_input in ground arith)

-- A request that created a job, sent again with any other drawn id at any later time, is answered
-- with that job and `idempotent_replay: true`, and changes nothing.
pub create_provisioning_job-again :
    (env : Env) (r : Request) (id id' : Text) (now now' : ℕ) (db : Db)
    → (create_provisioning_job env r id now db).0.status ≡ 201
    → (j : ProvisioningJob) × (job_of (create_provisioning_job env r id now db).1 id ≡ some j)
      × (create_provisioning_job env r id' now' (create_provisioning_job env r id now db).1 ≡ (
        record { status = 200; body = job (some j) true },
        (create_provisioning_job env r id now db).1,
      ))
unfolding create_provisioning_job row
create_provisioning_job-again env r id id' now now' db h =
    elim (Result-cases (check_job_request env r id now db)) [
      | inl (e, f) ↦ absurd (check_job_request-err env r id now db e f (ground arith))
      | inr (p, f) ↦ elim (Option-cases (place_job p.created p.node_id p.template db)) [
        | inl n ↦ absurd (ground arith)
        | inr (db', n) ↦
            let found = job_by_key-place_job p.created p.node_id p.template db db' n in
            let again = check_job_request-again env r id id' now now' db db' p f found in
            let placed = (job-place_job id p.created p.node_id p.template db db' n).1 in
            (
              p.created,
              rw (create_provisioning_job, f, n)
                  (ground (
                    arith,
                    job-place_job id p.created p.node_id p.template db db' n,
                    check_job_request-id env r id now db p f,
                    ==_refl id,
                  )),
              rw (create_provisioning_job, f, n, again),
            )
      ]
    ]

retry_changes :
    (j : ProvisioningJob) (node : Text) (now : ℕ) (db : Db) (k : Text)
    → job_of db k ≡ some j
    → j.state ≡ failed
    → j.id ≡ k
    → job_of (requeue j node now db) k ≡ some (retrying_job now j)
retry_changes j node now db k found s same =
    rw (job-requeue k j node now db) (unfold same_state in ground (arith, ==_refl k))

-- A retry that was accepted, sent again, is answered with the job, which is retrying, and
-- `retry_replay: true`, and changes nothing.
pub retry_provisioning_job-again :
    (env : Env) (r : Request) (k : Text) (now now' : ℕ) (db : Db) (j : ProvisioningJob)
    (node : Text)
    → check_retry env r k db ≡ ok (j, node)
    → retry_provisioning_job env r k now' (requeue j node now db) ≡ (
      record { status = 200; body = job (some (retrying_job now j)) true },
      requeue j node now db,
    )
unfolding retry_provisioning_job check_retry
retry_provisioning_job-again env r k now now' db j node h =
    let (found, s) = check_retry-failed env r k db j node h in
    let same = key-row (λ x. x.id) k db.provisioning_jobs {r = j} found in
    ground (arith, retry_changes j node now db k found s same)
