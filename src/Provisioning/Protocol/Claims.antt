-- ===== src/Provisioning/Protocol/Claims.antt =====
-- What the sweep of expired leases and a claim do at one job.
use dsx_control_plane.Base.{
  ℕ, ◌≡◌, inl, inr, Bool, true, false, ◌&&◌, ◌||◌, Option, none, some, List, [], ◌∷◌, arith,
  Option-cases, Bool-cases,
}
use dsx_control_plane.Text.{Text, ==_iff}
use dsx_control_plane.Db.{Db, job_of, lease_of}
use dsx_control_plane.Db.States.{dispatched, failed, same_state}
use dsx_control_plane.Db.Rows.{ProvisioningJob, Lease}
use dsx_control_plane.Provisioning.Machine.{can_transition}
use dsx_control_plane.Provisioning.Operations.{
  is_in_flight, expire_job, expire_lease, expire_each, mark_expired_leases, expired_leases,
  next_job, is_on, insert_lease, dispatch_job,
}
use dsx_control_plane.Table.{row, row-delete, key-row}
use dsx_control_plane.Http.{Env, Request, authenticate_node}
use dsx_control_plane.Provisioning.Operations.Claim.{
  Source, operation_source, release, new_lease, dispatch_source, after_lease, claim_job,
  claim_next_operation,
}
use dsx_control_plane.Provisioning.Effects.{
  lease-expire_job, job-expire_job, row-insert_lease, lease-dispatch_job, job-dispatch_job,
}
use dsx_control_plane.Provisioning.Protocol.{tracked, follows}
use dsx_control_plane.Provisioning.Protocol.Batches.{MovesAt, Moves-refl}

-- The job is as before, or was in flight and has failed.
unfoldable pub keeps_or_fails : Option ProvisioningJob → Option ProvisioningJob → Bool
unfolding same_state is_in_flight
keeps_or_fails none none = true
keeps_or_fails none (some j) = false
keeps_or_fails (some j) none = false
keeps_or_fails (some j) (some j') =
    same_state j.state j'.state || is_in_flight j.state && same_state j'.state failed

unfoldable keeps_or_dispatches : Option ProvisioningJob → Option ProvisioningJob → Bool
unfolding same_state
keeps_or_dispatches none none = true
keeps_or_dispatches none (some j) = false
keeps_or_dispatches (some j) none = false
keeps_or_dispatches (some j) (some j') =
    same_state j.state j'.state || same_state j'.state dispatched

pub record Sweeps (j : Option ProvisioningJob) (l : Option Lease) (j' : Option ProvisioningJob)
    (l' : Option Lease) : Type 0 where
  pub fails : keeps_or_fails j j' ≡ true
  pub track : tracked j l ≡ true → tracked j' l' ≡ true

abbrev pub SweepsAt : Text → Db → Db → Type 0
SweepsAt i db db' = Sweeps (job_of db i) (lease_of db i) (job_of db' i) (lease_of db' i)

keeps_or_fails_refl : (j : Option ProvisioningJob) → keeps_or_fails j j ≡ true
unfolding keeps_or_fails
keeps_or_fails_refl j = ground arith

keeps_or_fails_trans :
    (a b c : Option ProvisioningJob)
    → keeps_or_fails a b ≡ true
    → keeps_or_fails b c ≡ true
    → keeps_or_fails a c ≡ true
unfolding keeps_or_fails
keeps_or_fails_trans a b c h k = ground arith

module _ (i : Text) where
  expire_job-Sweeps :
      (j : ProvisioningJob) (k : Text) (now : ℕ) (db : Db) → SweepsAt i db (expire_job j k now db)
  unfolding keeps_or_fails tracked
  expire_job-Sweeps j k now db =
      ground (arith, job-expire_job i j k now db, lease-expire_job i j k now db)

  expire_lease-Sweeps : (k : Text) (now : ℕ) (db : Db) → SweepsAt i db (expire_lease k now db)
  unfolding expire_lease row
  expire_lease-Sweeps k now db = elim (Option-cases (job_of db k)) [
    | inl e ↦ rw (expire_lease, e) (record { fails = keeps_or_fails_refl _; track = λ t. t })
    | inr (j, e) ↦ rw (expire_lease, e) (expire_job-Sweeps j k now db)
  ]

  expire_each-Sweeps : (ls : List Lease) (now : ℕ) (db : Db) → SweepsAt i db (expire_each ls now db)
  unfolding expire_each
  expire_each-Sweeps [] now db = record { fails = keeps_or_fails_refl _; track = λ t. t }
  expire_each-Sweeps (l ∷ ls) now db =
      let one = expire_lease-Sweeps l.job_id now db in
      let rest = expire_each-Sweeps ls now (expire_lease l.job_id now db) in
      record {
        fails = keeps_or_fails_trans _ _ _ one.fails rest.fails;
        track = λ t. rest.track (one.track t);
      }

  mark_expired_leases-Sweeps :
      (node : Text) (now : ℕ) (db : Db) → SweepsAt i db (mark_expired_leases node now db)
  unfolding mark_expired_leases
  mark_expired_leases-Sweeps node now db = expire_each-Sweeps (expired_leases node now db) now db

record Claims (j : Option ProvisioningJob) (l : Option Lease) (j' : Option ProvisioningJob)
    (l' : Option Lease) : Type 0 where
  dispatches : keeps_or_dispatches j j' ≡ true
  follow : follows j j' ≡ true
  pub track : tracked j l ≡ true → tracked j' l' ≡ true

abbrev ClaimsAt : Text → Db → Db → Type 0
ClaimsAt i db db' = Claims (job_of db i) (lease_of db i) (job_of db' i) (lease_of db' i)

Claims-refl : (j : Option ProvisioningJob) (l : Option Lease) → Claims j l j l
unfolding keeps_or_dispatches follows
Claims-refl j l = record { dispatches = ground arith; follow = ground arith; track = λ t. t }

pub operation_source-eq-some :
    (db : Db) (k node : Text) (s : Source)
    → operation_source db k node ≡ some s
    → (job_of db k ≡ some s.job) × (is_on s.job.node_id node ≡ true)
unfolding operation_source
operation_source-eq-some db k node s h = (ground arith, ground arith)

module _ (i : Text) (env : Env) (db : Db) (node token : Text) (now : ℕ) (k : Text) (ls : List Lease)
    (inserted : insert_lease (new_lease env k node token now) db.provisioning_operation_leases
      ≡ some ls) where
  abbrev leased : Db
  leased = record db { provisioning_operation_leases = ls }

  release-Claims : ClaimsAt i db (release k leased)
  unfolding keeps_or_dispatches follows tracked
  release-Claims = ground (
    arith,
    row-insert_lease i (new_lease env k node token now) db.provisioning_operation_leases ls
        inserted,
    row-delete (λ l. l.job_id) i k ls,
    ==_iff k i,
  )

  module _ (s : Source) (found : operation_source leased k node ≡ some s)
      (free : can_transition s.job.state dispatched ≡ true) where
    uncaught-Claims : ClaimsAt i db leased
    unfolding keeps_or_dispatches follows tracked can_transition
    uncaught-Claims = ground (
      arith,
      row-insert_lease i (new_lease env k node token now) db.provisioning_operation_leases ls
          inserted,
      operation_source-eq-some leased k node s found,
      ==_iff k i,
    )

    dispatched-Claims :
        (db' : Db) → dispatch_job s.job node now leased ≡ some db' → ClaimsAt i db db'
    unfolding keeps_or_dispatches follows tracked can_transition
    dispatched-Claims db' h = ground (
      arith,
      row-insert_lease i (new_lease env k node token now) db.provisioning_operation_leases ls
          inserted,
      operation_source-eq-some leased k node s found,
      job-dispatch_job i s.job node now leased db' h,
      lease-dispatch_job i s.job node now leased db' h,
      key-row (λ j. j.id) k db.provisioning_jobs {r = s.job},
      ==_iff k i,
    )

  after_lease-Claims : ClaimsAt i db (after_lease env k node token now leased).1
  unfolding after_lease row
  after_lease-Claims = elim (Option-cases (operation_source leased k node)) [
    | inl e ↦ rw (after_lease, e) release-Claims
    | inr (s, e) ↦ elim (Bool-cases (can_transition s.job.state dispatched)) [
      | inl free ↦ elim (Option-cases (dispatch_job s.job node now leased)) [
        | inl none_left ↦
            rw (after_lease, e, free, dispatch_source, none_left) (uncaught-Claims s e free)
        | inr (db', done) ↦
            rw (after_lease, e, free, dispatch_source, done) (dispatched-Claims s e free db' done)
      ]
      | inr busy ↦ rw (after_lease, e, busy) release-Claims
    ]
  ]

sweep-then-dispatch :
    (a b c : Option ProvisioningJob)
    → keeps_or_fails a b ≡ true
    → keeps_or_dispatches b c ≡ true
    → follows b c ≡ true
    → follows a c ≡ true
unfolding keeps_or_fails keeps_or_dispatches follows
sweep-then-dispatch a b c h k m = ground arith

module _ (i : Text) (env : Env) (node token : Text) (now : ℕ) where
  claim_job-Claims :
      (o : Option ProvisioningJob) (db : Db) → ClaimsAt i db (claim_job env o node token now db).1
  unfolding claim_job row
  claim_job-Claims none db = unfold claim_job in Claims-refl _ _
  claim_job-Claims (some j) db =
      elim (Option-cases
        (insert_lease (new_lease env j.id node token now) db.provisioning_operation_leases)) [
          | inl e ↦ rw (claim_job, e) (Claims-refl _ _)
          | inr (ls, e) ↦ rw (claim_job, e) (after_lease-Claims i env db node token now j.id ls e)
        ]

  swept-Claims :
      (db : Db)
      → (o : Option ProvisioningJob)
      → MovesAt i db (claim_job env o node token now (mark_expired_leases node now db)).1
  swept-Claims db o =
      let s = mark_expired_leases-Sweeps i node now db in
      let c = claim_job-Claims o (mark_expired_leases node now db) in
      record {
        follow = sweep-then-dispatch _ _ _ s.fails c.dispatches c.follow;
        track = λ t. c.track (s.track t);
      }

  pub claim_next_operation-Moves :
      (r : Request) (db : Db) → MovesAt i db (claim_next_operation env r node token now db).1
  unfolding claim_next_operation row
  claim_next_operation-Moves r db = elim (Bool-cases (authenticate_node env r node db)) [
    | inl e ↦
        rw (claim_next_operation, e)
          (swept-Claims db (next_job node (mark_expired_leases node now db)))
    | inr e ↦ rw (claim_next_operation, e) (Moves-refl _ _)
  ]
