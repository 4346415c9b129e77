-- ===== src/Cleanup/Protocol/Claims.antt =====
-- What the sweep of expired leases and a claim do at one clean-up job.
use dsx_control_plane.Base.{
  ℕ, ◌≡◌, inl, inr, Bool, true, false, ◌&&◌, ◌||◌, Option, none, some, List, [], ◌∷◌, arith,
  Option-cases, Bool-cases,
}
use dsx_control_plane.Text.{Text, ==_iff}
use dsx_control_plane.Table.{row, delete, row-delete, key-row}
use dsx_control_plane.Db.{Db, cleanup_of, cleanup_lease_of}
use dsx_control_plane.Db.States.{CleanupState, EnvironmentKind, same_cleanup, same_kind}
use dsx_control_plane.Db.Rows.{CleanupJob, Lease}
use dsx_control_plane.Http.{Env, Request, authenticate_node}
use dsx_control_plane.Provisioning.Operations.{insert_lease}
use dsx_control_plane.Provisioning.Operations.Claim.{new_lease}
use dsx_control_plane.Provisioning.Effects.{row-insert_lease}
use dsx_control_plane.Cleanup.Operations.{
  is_under_way, expire_cleanup, expire_cleanup_lease, expire_each_cleanup,
  mark_expired_cleanup_leases, expired_cleanup_leases, next_cleanup, CleanupSource, cleanup_source,
  dispatch_cleanup, after_cleanup_lease, claim_cleanup, claim_cleanup_operation,
}
use dsx_control_plane.Cleanup.Effects.{
  lease-expire_cleanup, job-expire_cleanup, job-dispatch_cleanup,
}
use dsx_control_plane.Cleanup.Protocol.{cleanup_follows, is_leased}

-- What one step does at one job.
pub record CleanupMoves (j : Option CleanupJob) (l : Option Lease) (j' : Option CleanupJob)
    (l' : Option Lease) : Type 0 where
  pub follow : cleanup_follows j j' ≡ true
  pub track : is_leased j l ≡ true → is_leased j' l' ≡ true

abbrev pub CleanupMovesAt : Text → Db → Db → Type 0
CleanupMovesAt i db db' =
    CleanupMoves (cleanup_of db i) (cleanup_lease_of db i) (cleanup_of db' i)
      (cleanup_lease_of db' i)

pub CleanupMoves-refl : (j : Option CleanupJob) (l : Option Lease) → CleanupMoves j l j l
unfolding cleanup_follows
CleanupMoves-refl j l = record { follow = ground arith; track = λ t. t }

-- The job is as before, or was under way and has failed.
unfoldable pub cleanup_fails : Option CleanupJob → Option CleanupJob → Bool
unfolding same_cleanup is_under_way
cleanup_fails none none = true
cleanup_fails none (some j) = false
cleanup_fails (some j) none = false
cleanup_fails (some j) (some j') =
    same_cleanup j.state j'.state
    || is_under_way j.state && same_cleanup j'.state CleanupState.failed

-- The job is as before, or was queued and is dispatched.
unfoldable pub cleanup_dispatches : Option CleanupJob → Option CleanupJob → Bool
unfolding same_cleanup
cleanup_dispatches none none = true
cleanup_dispatches none (some j) = false
cleanup_dispatches (some j) none = false
cleanup_dispatches (some j) (some j') =
    same_cleanup j.state j'.state
    || same_cleanup j.state CleanupState.queued && same_cleanup j'.state CleanupState.dispatched

pub cleanup_fails_refl : (j : Option CleanupJob) → cleanup_fails j j ≡ true
unfolding cleanup_fails
cleanup_fails_refl j = ground arith

pub cleanup_fails_trans :
    (a b c : Option CleanupJob)
    → cleanup_fails a b ≡ true
    → cleanup_fails b c ≡ true
    → cleanup_fails a c ≡ true
unfolding cleanup_fails
cleanup_fails_trans a b c h k = ground arith

pub fail-then-dispatch :
    (a b c : Option CleanupJob)
    → cleanup_fails a b ≡ true
    → cleanup_dispatches b c ≡ true
    → cleanup_follows a c ≡ true
unfolding cleanup_fails cleanup_dispatches cleanup_follows
fail-then-dispatch a b c h k = ground arith

pub record CleanupSweeps (j : Option CleanupJob) (l : Option Lease) (j' : Option CleanupJob)
    (l' : Option Lease) : Type 0 where
  pub fails : cleanup_fails j j' ≡ true
  pub sweeps_track : is_leased j l ≡ true → is_leased j' l' ≡ true

abbrev pub CleanupSweepsAt : Text → Db → Db → Type 0
CleanupSweepsAt i db db' =
    CleanupSweeps (cleanup_of db i) (cleanup_lease_of db i) (cleanup_of db' i)
      (cleanup_lease_of db' i)

module _ (i : Text) where
  expire_cleanup-Sweeps :
      (j : CleanupJob) (k : Text) (now : ℕ) (db : Db)
      → CleanupSweepsAt i db (expire_cleanup j k now db)
  unfolding cleanup_fails is_leased
  expire_cleanup-Sweeps j k now db =
      ground (arith, job-expire_cleanup i j k now db, lease-expire_cleanup i j k now db)

  expire_cleanup_lease-Sweeps :
      (k : Text) (now : ℕ) (db : Db) → CleanupSweepsAt i db (expire_cleanup_lease k now db)
  unfolding expire_cleanup_lease row
  expire_cleanup_lease-Sweeps k now db = elim (Option-cases (cleanup_of db k)) [
    | inl e ↦
        rw (expire_cleanup_lease, e)
          (record { fails = cleanup_fails_refl _; sweeps_track = λ t. t })
    | inr (j, e) ↦ rw (expire_cleanup_lease, e) (expire_cleanup-Sweeps j k now db)
  ]

  expire_each_cleanup-Sweeps :
      (ls : List Lease) (now : ℕ) (db : Db) → CleanupSweepsAt i db (expire_each_cleanup ls now db)
  unfolding expire_each_cleanup
  expire_each_cleanup-Sweeps [] now db = record {
    fails = cleanup_fails_refl _;
    sweeps_track = λ t. t;
  }
  expire_each_cleanup-Sweeps (l ∷ ls) now db =
      let one = expire_cleanup_lease-Sweeps l.job_id now db in
      let rest = expire_each_cleanup-Sweeps ls now (expire_cleanup_lease l.job_id now db) in
      record {
        fails = cleanup_fails_trans _ _ _ one.fails rest.fails;
        sweeps_track = λ t. rest.sweeps_track (one.sweeps_track t);
      }

  sweep-Sweeps :
      (node : Text) (now : ℕ) (db : Db)
      → CleanupSweepsAt i db (mark_expired_cleanup_leases node now db)
  unfolding mark_expired_cleanup_leases
  sweep-Sweeps node now db = expire_each_cleanup-Sweeps (expired_cleanup_leases node now db) now db

pub record CleanupClaims (j : Option CleanupJob) (l : Option Lease) (j' : Option CleanupJob)
    (l' : Option Lease) : Type 0 where
  pub dispatches : cleanup_dispatches j j' ≡ true
  pub claims_track : is_leased j l ≡ true → is_leased j' l' ≡ true

abbrev pub CleanupClaimsAt : Text → Db → Db → Type 0
CleanupClaimsAt i db db' =
    CleanupClaims (cleanup_of db i) (cleanup_lease_of db i) (cleanup_of db' i)
      (cleanup_lease_of db' i)

pub CleanupClaims-refl : (j : Option CleanupJob) (l : Option Lease) → CleanupClaims j l j l
unfolding cleanup_dispatches
CleanupClaims-refl j l = record { dispatches = ground arith; claims_track = λ t. t }

pub cleanup_source-eq-some :
    (db : Db) (k node : Text) (s : CleanupSource)
    → cleanup_source db k node ≡ some s
    → (cleanup_of db k ≡ some s.job) × (s.job.node_id ≡ node)
unfolding cleanup_source
cleanup_source-eq-some db k node s h = (ground arith, ground (arith, ==_iff s.job.node_id node))

module _ (i : Text) (env : Env) (db : Db) (node token : Text) (now : ℕ) (k : Text) (ls : List Lease)
    (inserted : insert_lease (new_lease env k node token now) db.cleanup_operation_leases
      ≡ some ls) where
  abbrev leased : Db
  leased = record db { cleanup_operation_leases = ls }

  release-Claims :
      CleanupClaimsAt i db
        (record leased { cleanup_operation_leases = delete (λ l. l.job_id) k ls })
  unfolding cleanup_dispatches is_leased
  release-Claims = ground (
    arith,
    row-insert_lease i (new_lease env k node token now) db.cleanup_operation_leases ls inserted,
    row-delete (λ l. l.job_id) i k ls,
    ==_iff k i,
  )

  dispatch-Claims :
      (s : CleanupSource)
      → cleanup_source leased k node ≡ some s
      → same_cleanup s.job.state CleanupState.queued ≡ true
      → CleanupClaimsAt i db (dispatch_cleanup s.job node now leased)
  unfolding cleanup_dispatches is_leased dispatch_cleanup
  dispatch-Claims s found free = ground (
    arith,
    row-insert_lease i (new_lease env k node token now) db.cleanup_operation_leases ls inserted,
    cleanup_source-eq-some leased k node s found,
    job-dispatch_cleanup i s.job node now leased,
    key-row (λ j. j.id) k db.cleanup_jobs {r = s.job},
    ==_iff s.job.node_id node,
    ==_iff k i,
  )

  after_cleanup_lease-Claims :
      CleanupClaimsAt i db (after_cleanup_lease env k node token now leased).1
  unfolding after_cleanup_lease row
  after_cleanup_lease-Claims = elim (Option-cases (cleanup_source leased k node)) [
    | inl e ↦ rw (after_cleanup_lease, e) release-Claims
    | inr (s, e) ↦ elim (Bool-cases (same_cleanup s.job.state CleanupState.queued)) [
      | inr busy ↦ rw (after_cleanup_lease, e, busy) release-Claims
      | inl free ↦ elim (Bool-cases (same_kind s.environment_kind EnvironmentKind.test)) [
        | inr other ↦ rw (after_cleanup_lease, e, free, other) release-Claims
        | inl test ↦ rw (after_cleanup_lease, e, free, test) (dispatch-Claims s e free)
      ]
    ]
  ]

module _ (i : Text) (env : Env) (node token : Text) (now : ℕ) where
  claim_cleanup-Claims :
      (o : Option CleanupJob) (db : Db)
      → CleanupClaimsAt i db (claim_cleanup env o node token now db).1
  unfolding claim_cleanup row
  claim_cleanup-Claims none db = unfold claim_cleanup in CleanupClaims-refl _ _
  claim_cleanup-Claims (some j) db =
      elim (Option-cases
        (insert_lease (new_lease env j.id node token now) db.cleanup_operation_leases)) [
          | inl e ↦ rw (claim_cleanup, e) (CleanupClaims-refl _ _)
          | inr (ls, e) ↦
              rw (claim_cleanup, e) (after_cleanup_lease-Claims i env db node token now j.id ls e)
        ]

  swept-Moves :
      (db : Db) (o : Option CleanupJob)
      → CleanupMovesAt i db
          (claim_cleanup env o node token now (mark_expired_cleanup_leases node now db)).1
  swept-Moves db o =
      let s = sweep-Sweeps i node now db in
      let c = claim_cleanup-Claims o (mark_expired_cleanup_leases node now db) in
      record {
        follow = fail-then-dispatch _ _ _ s.fails c.dispatches;
        track = λ t. c.claims_track (s.sweeps_track t);
      }

  pub claim_cleanup_operation-Moves :
      (r : Request) (db : Db)
      → CleanupMovesAt i db (claim_cleanup_operation env r node token now db).1
  unfolding claim_cleanup_operation row
  claim_cleanup_operation-Moves r db = elim (Bool-cases (authenticate_node env r node db)) [
    | inl e ↦
        rw (claim_cleanup_operation, e)
          (swept-Moves db (next_cleanup node (mark_expired_cleanup_leases node now db)))
    | inr e ↦ rw (claim_cleanup_operation, e) (CleanupMoves-refl _ _)
  ]
