-- ===== src/Trials/Replay.antt =====
-- A trial request of deploy/cloudflare/src/trials.ts that is sent twice.
use dsx_control_plane.Base.{
  ℕ, ◌≡◌, ◌≢◌, inl, inr, refl, Bool, true, Option, none, some, List, [], ◌∷◌, ◌++◌, arith, ok, err,
  >>=-eq-ok, Result-cases, Option-cases,
}
use dsx_control_plane.Base.Lists.{find}
use dsx_control_plane.Text.{Text, ==_refl}
use dsx_control_plane.Db.{Db}
use dsx_control_plane.Db.States.{EnvironmentKind, same_kind}
use dsx_control_plane.Db.Rows.{Tenant}
use dsx_control_plane.Http.{Env, Request}
use dsx_control_plane.Http.Response.{Response, trial}
use dsx_control_plane.Trials.Hostname.{trial_hostname}
use dsx_control_plane.Trials.Inputs.{TrialRequestInput}
use dsx_control_plane.Trials.Requests.{
  TrialPlan, is_trial_of, trial_by_request_key, with_cleanup, find_job_for_tenant, new_trial,
  insert_trial, add_trial, replayed, check_trial_input, parse_trial_request, check_trial,
  create_trial,
}

find-append :
    (p : Tenant → Bool) (ts : List Tenant) (t : Tenant)
    → find p ts ≡ none
    → p t ≡ true
    → find p (ts ++ t ∷ []) ≡ some t
unfolding find
find-append p [] t h k = ground arith
find-append p (x ∷ ts) t h k = ground (arith, find-append p ts t)

new_trial-key :
    (input : TrialRequestInput) (id node : Text) (hostname : Option Text) (now : ℕ)
    → is_trial_of input.idempotency_key (new_trial input id node hostname now) ≡ true
unfolding same_kind
new_trial-key input id node hostname now = ground (arith, ==_refl input.idempotency_key)

trial_by_request_key-add_trial :
    (p : TrialPlan) (id job : Text) (hostname : Option Text) (now : ℕ) (db db' : Db)
    → trial_by_request_key db p.input.idempotency_key ≡ none
    → add_trial p id job hostname now db ≡ some db'
    → trial_by_request_key db' p.input.idempotency_key
      ≡ some (new_trial p.input id p.node_id hostname now)
unfolding add_trial trial_by_request_key insert_trial
trial_by_request_key-add_trial p id job hostname now db db' free h = ground (
  arith,
  find-append (is_trial_of p.input.idempotency_key) db.tenants
      (new_trial p.input id p.node_id hostname now),
  new_trial-key p.input id p.node_id hostname now,
)

check_trial_input-free :
    (env : Env) (input : TrialRequestInput) (now : ℕ) (db : Db) (p : TrialPlan)
    → check_trial_input env input now db ≡ ok p
    → (trial_by_request_key db p.input.idempotency_key ≡ none) × (p.input ≡ input)
unfolding check_trial_input
check_trial_input-free env input now db p h = (ground arith, ground arith)

check_trial-refused :
    (env : Env) (r : Request) (now : ℕ) (db : Db) (e : Response)
    → check_trial env r now db ≡ err e
    → e.status ≢ 201
unfolding check_trial parse_trial_request check_trial_input
check_trial-refused env r now db e h = ground arith

check_trial-free :
    (env : Env) (r : Request) (now : ℕ) (db : Db) (p : TrialPlan)
    → check_trial env r now db ≡ ok p
    → trial_by_request_key db p.input.idempotency_key ≡ none
unfolding check_trial
check_trial-free env r now db p h =
    let (input, parsed, checked) = >>=-eq-ok (parse_trial_request env r) _ h in
    (check_trial_input-free env input now db p checked).0

check_trial-again :
    (env : Env) (r : Request) (now now' : ℕ) (db db' : Db) (p : TrialPlan) (t : Tenant)
    → check_trial env r now db ≡ ok p
    → trial_by_request_key db' p.input.idempotency_key ≡ some t
    → check_trial env r now' db' ≡ err (replayed db' t)
unfolding check_trial
check_trial-again env r now now' db db' p t h found =
    let (input, parsed, checked) = >>=-eq-ok (parse_trial_request env r) _ h in
    let (_, same) = check_trial_input-free env input now db p checked in
    rw parsed (unfold check_trial_input in ground arith)

-- A request that created a trial, sent again with any other drawn ids at any later time, is
-- answered with that trial, its clean-up and its newest job, and `idempotent_replay: true`, and
-- changes nothing.
pub create_trial-again :
    (env : Env) (r : Request) (id job id' job' : Text) (now now' : ℕ) (db : Db)
    → (create_trial env r id job now db).0.status ≡ 201
    → (t : Tenant) × (t.id ≡ id)
      × (t.environment_kind ≡ EnvironmentKind.trial)
      × (create_trial env r id' job' now' (create_trial env r id job now db).1 ≡ (
        record {
          status = 200;
          body =
              trial
                (some (with_cleanup (create_trial env r id job now db).1 t))
                (find_job_for_tenant (create_trial env r id job now db).1 id)
                true;
        },
        (create_trial env r id job now db).1,
      ))
unfolding create_trial
create_trial-again env r id job id' job' now now' db h =
    elim (Result-cases (check_trial env r now db)) [
      | inl (e, f) ↦ absurd (check_trial-refused env r now db e f (ground arith))
      | inr (p, f) ↦
          let hostname = trial_hostname p.input.slug env.trial_base_domain in
          let t = new_trial p.input id p.node_id hostname now in
          elim (Option-cases (add_trial p id job hostname now db)) [
            | inl n ↦ absurd (ground arith)
            | inr (db', n) ↦
                let found =
                  trial_by_request_key-add_trial p id job hostname now db db'
                    (check_trial-free env r now db p f) n in
                let again = check_trial-again env r now now' db db' p t f found in
                (t, refl, refl, rw (create_trial, f, n, again) refl)
          ]
    ]
