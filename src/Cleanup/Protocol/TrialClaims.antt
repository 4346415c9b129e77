-- ===== src/Cleanup/Protocol/TrialClaims.antt =====
-- What the sweep of expired leases and a claim do at one clean-up job of a trial.
use dsx_control_plane.Base.{
  ℕ, ◌≡◌, refl, inl, inr, true, Option, none, some, List, [], ◌∷◌, arith, Option-cases, Bool-cases,
}
use dsx_control_plane.Text.{Text, ==_iff}
use dsx_control_plane.Table.{row, delete, row-delete, key-row}
use dsx_control_plane.Db.{Db, cleanup_of, cleanup_lease_of}
use dsx_control_plane.Db.States.{CleanupState, same_cleanup}
use dsx_control_plane.Db.Rows.{CleanupJob, Lease}
use dsx_control_plane.Http.{Env, Request, authenticate_node}
use dsx_control_plane.Provisioning.Operations.{insert_lease}
use dsx_control_plane.Provisioning.Operations.Claim.{new_lease}
use dsx_control_plane.Provisioning.Effects.{row-insert_lease}
use dsx_control_plane.Cleanup.Operations.{is_under_way}
use dsx_control_plane.Cleanup.Protocol.{is_leased}
use dsx_control_plane.Table.{row-update}
use dsx_control_plane.Provisioning.Effects.{set_row, cut_row}
use dsx_control_plane.Cleanup.Operations.{expired_cleanup, dispatched_cleanup}
use dsx_control_plane.Cleanup.Protocol.Claims.{
  CleanupMovesAt, CleanupMoves-refl, cleanup_fails, cleanup_dispatches, cleanup_fails_refl,
  cleanup_fails_trans, fail-then-dispatch, CleanupSweepsAt, CleanupClaimsAt, CleanupClaims-refl,
}
use dsx_control_plane.Trials.Cleanup.Claim.{
  trial_cleanup_of, expire_trial_cleanup, expire_trial_lease, expire_each_trial,
  mark_expired_trial_cleanup_leases, expired_trial_leases, next_trial_cleanup, TrialCleanupSource,
  trial_cleanup_source, is_dispatchable, dispatch_trial_cleanup, after_trial_lease, claim_trial_job,
  claim_trial_cleanup,
}

module _ (i : Text) where
  lease-expire_trial_cleanup :
      (j : CleanupJob) (k : Text) (now : ℕ) (db : Db)
      → cleanup_lease_of (expire_trial_cleanup j k now db) i ≡ cut_row k i (cleanup_lease_of db i)
  unfolding expire_trial_cleanup
  lease-expire_trial_cleanup j k now db = row-delete (λ l. l.job_id) i k db.cleanup_operation_leases

  job-expire_trial_cleanup :
      (j : CleanupJob) (k : Text) (now : ℕ) (db : Db)
      → cleanup_of (expire_trial_cleanup j k now db) i
        ≡ set_row k i (λ x. is_under_way x.state) (expired_cleanup now) (cleanup_of db i)
  unfolding expire_trial_cleanup
  job-expire_trial_cleanup j k now db =
      row-update (λ x. x.id) (λ x. is_under_way x.state) (expired_cleanup now) (λ x. refl) i k
        db.cleanup_jobs

  pub job-dispatch_trial_cleanup :
      (j : CleanupJob) (node : Text) (now : ℕ) (db : Db)
      → cleanup_of (dispatch_trial_cleanup j node now db) i
        ≡ set_row j.id i
            (λ x. same_cleanup x.state CleanupState.queued)
            (dispatched_cleanup now)
            (cleanup_of db i)
  unfolding dispatch_trial_cleanup
  job-dispatch_trial_cleanup j node now db =
      row-update (λ x. x.id) (λ x. same_cleanup x.state CleanupState.queued)
        (dispatched_cleanup now) (λ x. refl) i j.id db.cleanup_jobs

  expire_trial_cleanup-Sweeps :
      (j : CleanupJob) (k : Text) (now : ℕ) (db : Db)
      → CleanupSweepsAt i db (expire_trial_cleanup j k now db)
  unfolding cleanup_fails is_leased
  expire_trial_cleanup-Sweeps j k now db =
      ground (arith, job-expire_trial_cleanup j k now db, lease-expire_trial_cleanup j k now db)

  expire_trial_lease-Sweeps :
      (k : Text) (now : ℕ) (db : Db) → CleanupSweepsAt i db (expire_trial_lease k now db)
  unfolding expire_trial_lease row
  expire_trial_lease-Sweeps k now db = elim (Option-cases (trial_cleanup_of db k)) [
    | inl e ↦
        rw (expire_trial_lease, e) (record { fails = cleanup_fails_refl _; sweeps_track = λ t. t })
    | inr (j, e) ↦ rw (expire_trial_lease, e) (expire_trial_cleanup-Sweeps j k now db)
  ]

  expire_each_trial-Sweeps :
      (ls : List Lease) (now : ℕ) (db : Db) → CleanupSweepsAt i db (expire_each_trial ls now db)
  unfolding expire_each_trial
  expire_each_trial-Sweeps [] now db = record {
    fails = cleanup_fails_refl _;
    sweeps_track = λ t. t;
  }
  expire_each_trial-Sweeps (l ∷ ls) now db =
      let one = expire_trial_lease-Sweeps l.job_id now db in
      let rest = expire_each_trial-Sweeps ls now (expire_trial_lease l.job_id now db) in
      record {
        fails = cleanup_fails_trans _ _ _ one.fails rest.fails;
        sweeps_track = λ t. rest.sweeps_track (one.sweeps_track t);
      }

  sweep_trials-Sweeps :
      (node : Text) (now : ℕ) (db : Db)
      → CleanupSweepsAt i db (mark_expired_trial_cleanup_leases node now db)
  unfolding mark_expired_trial_cleanup_leases
  sweep_trials-Sweeps node now db =
      expire_each_trial-Sweeps (expired_trial_leases node now db) now db

pub trial_cleanup_source-eq-some :
    (db : Db) (k node : Text) (s : TrialCleanupSource)
    → trial_cleanup_source db k node ≡ some s
    → (cleanup_of db k ≡ some s.job) × (s.job.node_id ≡ node)
unfolding trial_cleanup_source
trial_cleanup_source-eq-some db k node s h =
    (ground arith, ground (arith, ==_iff s.job.node_id node))

is_dispatchable-queued :
    (s : TrialCleanupSource)
    → is_dispatchable s ≡ true
    → same_cleanup s.job.state CleanupState.queued ≡ true
unfolding is_dispatchable
is_dispatchable-queued s h = ground arith

module _ (i : Text) (env : Env) (db : Db) (node token : Text) (now : ℕ) (k : Text) (ls : List Lease)
    (inserted : insert_lease (new_lease env k node token now) db.cleanup_operation_leases
      ≡ some ls) where
  abbrev leased : Db
  leased = record db { cleanup_operation_leases = ls }

  release-Claims :
      CleanupClaimsAt i db
        (record leased { cleanup_operation_leases = delete (λ l. l.job_id) k ls })
  unfolding cleanup_dispatches is_leased
  release-Claims = ground (
    arith,
    row-insert_lease i (new_lease env k node token now) db.cleanup_operation_leases ls inserted,
    row-delete (λ l. l.job_id) i k ls,
    ==_iff k i,
  )

  dispatch-Claims :
      (s : TrialCleanupSource)
      → trial_cleanup_source leased k node ≡ some s
      → same_cleanup s.job.state CleanupState.queued ≡ true
      → CleanupClaimsAt i db (dispatch_trial_cleanup s.job node now leased)
  unfolding cleanup_dispatches is_leased dispatch_trial_cleanup
  dispatch-Claims s found free = ground (
    arith,
    row-insert_lease i (new_lease env k node token now) db.cleanup_operation_leases ls inserted,
    trial_cleanup_source-eq-some leased k node s found,
    job-dispatch_trial_cleanup i s.job node now leased,
    key-row (λ j. j.id) k db.cleanup_jobs {r = s.job},
    ==_iff s.job.node_id node,
    ==_iff k i,
  )

  after_trial_lease-Claims : CleanupClaimsAt i db (after_trial_lease env k node token now leased).1
  unfolding after_trial_lease row
  after_trial_lease-Claims = elim (Option-cases (trial_cleanup_source leased k node)) [
    | inl e ↦ rw (after_trial_lease, e) release-Claims
    | inr (s, e) ↦ elim (Bool-cases (is_dispatchable s)) [
      | inr busy ↦ rw (after_trial_lease, e, busy) release-Claims
      | inl free ↦
          rw (after_trial_lease, e, free) (dispatch-Claims s e (is_dispatchable-queued s free))
    ]
  ]

module _ (i : Text) (env : Env) (node token : Text) (now : ℕ) where
  claim_trial_job-Claims :
      (o : Option CleanupJob) (db : Db)
      → CleanupClaimsAt i db (claim_trial_job env o node token now db).1
  unfolding claim_trial_job row
  claim_trial_job-Claims none db = unfold claim_trial_job in CleanupClaims-refl _ _
  claim_trial_job-Claims (some j) db =
      elim (Option-cases
        (insert_lease (new_lease env j.id node token now) db.cleanup_operation_leases)) [
          | inl e ↦ rw (claim_trial_job, e) (CleanupClaims-refl _ _)
          | inr (ls, e) ↦
              rw (claim_trial_job, e) (after_trial_lease-Claims i env db node token now j.id ls e)
        ]

  swept-Moves :
      (db : Db) (o : Option CleanupJob)
      → CleanupMovesAt i db
          (claim_trial_job env o node token now (mark_expired_trial_cleanup_leases node now db)).1
  swept-Moves db o =
      let s = sweep_trials-Sweeps i node now db in
      let c = claim_trial_job-Claims o (mark_expired_trial_cleanup_leases node now db) in
      record {
        follow = fail-then-dispatch _ _ _ s.fails c.dispatches;
        track = λ t. c.claims_track (s.sweeps_track t);
      }

  pub claim_trial_cleanup-Moves :
      (r : Request) (db : Db) → CleanupMovesAt i db (claim_trial_cleanup env r node token now db).1
  unfolding claim_trial_cleanup row
  claim_trial_cleanup-Moves r db = elim (Bool-cases (authenticate_node env r node db)) [
    | inl e ↦
        rw (claim_trial_cleanup, e)
          (swept-Moves db (next_trial_cleanup node (mark_expired_trial_cleanup_leases node now db)))
    | inr e ↦ rw (claim_trial_cleanup, e) (CleanupMoves-refl _ _)
  ]
