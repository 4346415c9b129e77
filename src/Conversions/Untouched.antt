-- ===== src/Conversions/Untouched.antt =====
-- The routes of tenants, trials and provisioning jobs that leave the requests for conversion alone.
use dsx_control_plane.Base.{
  ℕ, ◌≡◌, refl, ◌∙◌, inl, inr, Option, none, some, List, [], ◌∷◌, arith, Option-cases,
}
use dsx_control_plane.Text.{Text}
use dsx_control_plane.Db.{Db}
use dsx_control_plane.Db.Rows.{Lease, ProvisioningJob}
use dsx_control_plane.Http.{Env, Request}
use dsx_control_plane.Provisioning.Tenants.{create_tenant, add_tenant}
use dsx_control_plane.Provisioning.Jobs.{create_provisioning_job, place_job}
use dsx_control_plane.Provisioning.Retry.{retry_provisioning_job, requeue}
use dsx_control_plane.Provisioning.Operations.{
  expire_job, expire_lease, expire_each, mark_expired_leases, expired_leases, insert_lease,
  dispatch_job, next_job,
}
use dsx_control_plane.Provisioning.Operations.Claim.{
  dispatch_source, after_lease, claim_job, claim_next_operation, new_lease,
}
use dsx_control_plane.Provisioning.Operations.Report.{
  report_operation_result, apply_report, write_result, renew_lease, start_job, finish_job,
}
use dsx_control_plane.Trials.Requests.{create_trial, add_trial}

abbrev pub Untouched : Db → Db → Type 0
Untouched db db' = db'.trial_conversion_requests ≡ db.trial_conversion_requests

module _ (env : Env) (r : Request) (db : Db) where
  pub create_tenant-Untouched :
      (id : Text) (now : ℕ) → Untouched db (create_tenant env r id now db).1
  unfolding create_tenant add_tenant
  create_tenant-Untouched id now = ground arith

  pub create_provisioning_job-Untouched :
      (id : Text) (now : ℕ) → Untouched db (create_provisioning_job env r id now db).1
  unfolding create_provisioning_job place_job
  create_provisioning_job-Untouched id now = ground arith

  pub create_trial-Untouched :
      (id job : Text) (now : ℕ) → Untouched db (create_trial env r id job now db).1
  unfolding create_trial add_trial
  create_trial-Untouched id job now = ground arith

  pub retry_provisioning_job-Untouched :
      (job : Text) (now : ℕ) → Untouched db (retry_provisioning_job env r job now db).1
  unfolding retry_provisioning_job requeue
  retry_provisioning_job-Untouched job now = ground arith

  pub report_operation_result-Untouched :
      (node job : Text) (now : ℕ) → Untouched db (report_operation_result env r node job now db).1
  unfolding report_operation_result apply_report write_result renew_lease start_job finish_job
  report_operation_result-Untouched node job now = ground arith

expire_lease-Untouched : (k : Text) (now : ℕ) (db : Db) → Untouched db (expire_lease k now db)
unfolding expire_lease expire_job
expire_lease-Untouched k now db = ground arith

expire_each-Untouched : (ls : List Lease) (now : ℕ) (db : Db) → Untouched db (expire_each ls now db)
unfolding expire_each
expire_each-Untouched [] now db = refl
expire_each-Untouched (l ∷ ls) now db =
    expire_each-Untouched ls now (expire_lease l.job_id now db)
    ∙ expire_lease-Untouched l.job_id now db

mark_expired_leases-Untouched :
    (node : Text) (now : ℕ) (db : Db) → Untouched db (mark_expired_leases node now db)
unfolding mark_expired_leases
mark_expired_leases-Untouched node now db =
    expire_each-Untouched (expired_leases node now db) now db

after_lease-Untouched :
    (env : Env) (k node token : Text) (now : ℕ) (db : Db)
    → Untouched db (after_lease env k node token now db).1
unfolding after_lease dispatch_source dispatch_job
after_lease-Untouched env k node token now db = ground arith

claim_job-Untouched :
    (env : Env) (o : Option ProvisioningJob) (node token : Text) (now : ℕ) (db : Db)
    → Untouched db (claim_job env o node token now db).1
unfolding claim_job
claim_job-Untouched env none node token now db = refl
claim_job-Untouched env (some j) node token now db =
    elim (Option-cases
      (insert_lease (new_lease env j.id node token now) db.provisioning_operation_leases)) [
        | inl e ↦ rw (claim_job, e) refl
        | inr (ls, e) ↦
            rw (claim_job, e)
              (after_lease-Untouched env j.id node token now
                (record db { provisioning_operation_leases = ls }))
      ]

pub claim_next_operation-Untouched :
    (env : Env) (r : Request) (node token : Text) (now : ℕ) (db : Db)
    → Untouched db (claim_next_operation env r node token now db).1
unfolding claim_next_operation
claim_next_operation-Untouched env r node token now db =
    let swept = mark_expired_leases node now db in
    ground (
      arith,
      mark_expired_leases-Untouched node now db,
      claim_job-Untouched env (next_job node swept) node token now swept,
    )
