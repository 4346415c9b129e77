-- ===== src/Conversions/Protocol/Moves.antt =====
-- Every step of the protocol advances each request, and keeps one in use for each trial.
use dsx_control_plane.Base.{
  ℕ, ◌≡◌, refl, inl, inr, Bool-cases, ◌||◌, not, Option, none, some, Option-cases, Result-cases,
}
use dsx_control_plane.Text.{Text}
use dsx_control_plane.Table.{row}
use dsx_control_plane.Db.{Db, conversion_of, job_of}
use dsx_control_plane.Db.States.{ConversionState, same_conversion}
use dsx_control_plane.Db.Rows.{ProvisioningJob, Conversion}
use dsx_control_plane.Http.{Env, Request}
use dsx_control_plane.Provisioning.Protocol
use dsx_control_plane.Conversions.Untouched.{
  Untouched, create_tenant-Untouched, create_provisioning_job-Untouched, create_trial-Untouched,
  retry_provisioning_job-Untouched, report_operation_result-Untouched,
  claim_next_operation-Untouched,
}
use dsx_control_plane.Conversions.Requests.{
  check_conversion, new_conversion, add_conversion, create_conversion,
}
use dsx_control_plane.Conversions.Approval.{
  check_approval, approve, approve_clean_production_conversion,
}
use dsx_control_plane.Conversions.Placement.{check_placement, place_production}
use dsx_control_plane.Conversions.Reconcile.{
  reconcile_trial_conversion, reconcile_linked, reconcile_to, conversion_state_for, is_under_way,
  linked_conversion,
}
use dsx_control_plane.Conversions.Protocol.{
  Step, creates, provisions, reconciles, Reach, here, next, Advances, IsSingle,
}
use dsx_control_plane.Conversions.Protocol.Rows.{
  AdvancesAt, Advances-refl, add_conversion-Advances, approve-Advances, place_target-Advances,
  write_conversion-Advances, add_conversion-IsSingle, approve-IsSingle, place_target-IsSingle,
  write_conversion-IsSingle,
}

-- What every step does.
record Keeps (db db' : Db) : Type 0 where
  advance : (i : Text) → AdvancesAt i db db'
  single : IsSingle db → IsSingle db'

Keeps-refl : (db : Db) → Keeps db db
Keeps-refl db = record { advance = λ i. Advances-refl (conversion_of db i); single = λ s. s }

Keeps-Untouched : (db db' : Db) → Untouched db db' → Keeps db db'
unfolding row
Keeps-Untouched db db' u = record {
  advance = λ i. rw u (Advances-refl (conversion_of db i));
  single = λ s trial. rw u (s trial);
}

create_conversion-Keeps :
    (env : Env) (r : Request) (trial id : Text) (now : ℕ) (db : Db)
    → Keeps db (create_conversion env r trial id now db).1
unfolding create_conversion row
create_conversion-Keeps env r trial id now db =
    elim (Result-cases (check_conversion env r trial db)) [
      | inl (e, h) ↦ rw (create_conversion, h) (Keeps-refl db)
      | inr (input, h) ↦
          let c = new_conversion input id trial now in
          elim (Option-cases (add_conversion c now db)) [
            | inl k ↦ rw (create_conversion, h, k) (Keeps-refl db)
            | inr (db', k) ↦
                rw (create_conversion, h, k)
                  (record {
                    advance = λ i. add_conversion-Advances i c now db db' refl k;
                    single = add_conversion-IsSingle c now db db' k;
                  })
          ]
    ]

approve_clean_production_conversion-Keeps :
    (env : Env) (r : Request) (trial conversion target job : Text) (now : ℕ) (db : Db)
    → Keeps db (approve_clean_production_conversion env r trial conversion target job now db).1
unfolding approve_clean_production_conversion row
approve_clean_production_conversion-Keeps env r trial conversion target job now db =
    elim (Result-cases (check_approval env r trial conversion db)) [
      | inl (e, h) ↦ rw (approve_clean_production_conversion, h) (Keeps-refl db)
      | inr (a, h) ↦ elim (Option-cases (approve a target job now db)) [
        | inl k ↦ rw (approve_clean_production_conversion, h, k) (Keeps-refl db)
        | inr (db', k) ↦
            rw (approve_clean_production_conversion, h, k)
              (record {
                advance = λ i. approve-Advances i a target job now db db' k;
                single = approve-IsSingle a target job now db db' k;
              })
      ]
    ]

place_production-Keeps :
    (env : Env) (r : Request) (trial conversion : Text) (now : ℕ) (db : Db)
    → Keeps db (place_production env r trial conversion now db).1
unfolding place_production row
place_production-Keeps env r trial conversion now db =
    elim (Result-cases (check_placement env r trial conversion now db)) [
      | inl (e, h) ↦ rw (place_production, h) (Keeps-refl db)
      | inr (p, h) ↦
          rw (place_production, h)
            (record {
              advance = λ i. place_target-Advances i p now db;
              single = place_target-IsSingle p now db;
            })
    ]

reconcile_to-Keeps :
    (j : ProvisioningJob) (c : Conversion) (s : Option ConversionState) (now : ℕ) (db : Db)
    → conversion_state_for j.state ≡ s
    → Keeps db (reconcile_to j c s now db).1
reconcile_to-Keeps j c none now db known = Keeps-refl db
reconcile_to-Keeps j c (some s) now db known =
    elim (Bool-cases (same_conversion c.state s || not (is_under_way c.state))) [
      | inl t ↦ rw t (Keeps-refl db)
      | inr t ↦ rw t (record {
        advance = λ i. write_conversion-Advances i j c s now db known;
        single = write_conversion-IsSingle j c s now db;
      })
    ]

reconcile_linked-Keeps :
    (j : ProvisioningJob) (o : Option Conversion) (now : ℕ) (db : Db)
    → Keeps db (reconcile_linked j o now db).1
reconcile_linked-Keeps j none now db = Keeps-refl db
reconcile_linked-Keeps j (some c) now db =
    reconcile_to-Keeps j c (conversion_state_for j.state) now db refl

reconcile_trial_conversion-Keeps :
    (job : Text) (now : ℕ) (db : Db) → Keeps db (reconcile_trial_conversion job now db).1
unfolding reconcile_trial_conversion row
reconcile_trial_conversion-Keeps job now db = elim (Option-cases (job_of db job)) [
  | inl e ↦ rw (reconcile_trial_conversion, e) (Keeps-refl db)
  | inr (j, e) ↦
      rw (reconcile_trial_conversion, e) (reconcile_linked-Keeps j (linked_conversion db j) now db)
]

Protocol-Step-Keeps : (env : Env) (db : Db) {db' : Db} → Protocol.Step env db db' → Keeps db db'
Protocol-Step-Keeps env db (Protocol.create_tenants r id now) =
    Keeps-Untouched db _ (create_tenant-Untouched env r db id now)
Protocol-Step-Keeps env db (Protocol.create_jobs r id now) =
    Keeps-Untouched db _ (create_provisioning_job-Untouched env r db id now)
Protocol-Step-Keeps env db (Protocol.create_trials r id job now) =
    Keeps-Untouched db _ (create_trial-Untouched env r db id job now)
Protocol-Step-Keeps env db (Protocol.retries r job now) =
    Keeps-Untouched db _ (retry_provisioning_job-Untouched env r db job now)
Protocol-Step-Keeps env db (Protocol.claims r node token now) =
    Keeps-Untouched db _ (claim_next_operation-Untouched env r node token now db)
Protocol-Step-Keeps env db (Protocol.reports r node job now) =
    Keeps-Untouched db _ (report_operation_result-Untouched env r db node job now)
Protocol-Step-Keeps env db (Protocol.asks r trial id now) =
    create_conversion-Keeps env r trial id now db
Protocol-Step-Keeps env db (Protocol.approves r trial conversion target job now) =
    approve_clean_production_conversion-Keeps env r trial conversion target job now db
Protocol-Step-Keeps env db (Protocol.places r trial conversion now) =
    place_production-Keeps env r trial conversion now db

Step-Keeps : (env : Env) (db : Db) {db' : Db} → Step env db db' → Keeps db db'
Step-Keeps env db (creates r trial id now) = create_conversion-Keeps env r trial id now db
Step-Keeps env db (provisions s) = Protocol-Step-Keeps env db s
Step-Keeps env db (reconciles job now) = reconcile_trial_conversion-Keeps job now db

-- Whatever the request on tenants, trials, conversions or provisioning jobs, or the reconciliation,
-- and whatever comes of it: a conversion that appears is requested, none goes away, and each keeps
-- its state or goes on from requested to approved, from there to provisioning, ready or failed, or
-- from provisioning to ready or failed. Its trial, its request key and its mode stay as they are,
-- and so does its target tenant once it has left `requested`.
pub Step-Advances :
    (env : Env) (db db' : Db)
    → Step env db db'
    → (i : Text) → Advances (conversion_of db i) (conversion_of db' i)
Step-Advances env db db' s i = (Step-Keeps env db s).advance i

-- From a database in which each trial has at most one conversion that is neither failed nor
-- cancelled, any sequence of these steps leads to such a database.
pub Reach-IsSingle : (env : Env) (start db : Db) → Reach env start db → IsSingle start → IsSingle db
Reach-IsSingle env start db here s = s
Reach-IsSingle env start db (next {db = before} reach step) s =
    (Step-Keeps env before step).single (Reach-IsSingle env start before reach s)
