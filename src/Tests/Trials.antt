-- ===== src/Tests/Trials.antt =====
-- A run over expired trials on concrete inputs: one trial is due and one is not.
use mathlib.Core.List.{Memᴰ}
use dsx_control_plane.Base.{◌≤◌, ◌≡◌, refl, false, List, [], ◌∷◌, arith, none, some, true}
use dsx_control_plane.Base.Lists.{length, select}
use dsx_control_plane.Text.{Text, text, ◌==◌}
use dsx_control_plane.Table.{row}
use dsx_control_plane.Db.{Db, tenant_of}
use dsx_control_plane.Db.States.{TenantStatus, EnvironmentKind, same_kind, same_status, same_sector}
use dsx_control_plane.Db.Rows.{Tenant}
use dsx_control_plane.Trials.Expiration.{
  batch_size, is_selected, is_running_trial, reconcile_expired_trials,
}
use dsx_control_plane.Trials.Reconciling.Expiring.{at_tenant}
use dsx_control_plane.Trials.Reconciling.{
  IsKeyed, Expires, reconcile_expired_trials-Expires, reconcile_expired_trials_complete,
}
use dsx_control_plane.Http.{is_admin, bearer_token, read_json}
use dsx_control_plane.Http.Response.{Response, Body}
use dsx_control_plane.Time.{offline_seconds}
use dsx_control_plane.Provisioning.Inputs.{parse_tenant_input}
use dsx_control_plane.Provisioning.Placement.{select_placement_node, capacity}
use dsx_control_plane.Provisioning.Jobs.{placement_candidates}
use dsx_control_plane.Trials.Hostname.{trial_hostname}
use dsx_control_plane.Trials.Inputs.{parse_trial_request_input}
use dsx_control_plane.Trials.Requests.{
  parse_trial_request, check_trial_input, with_cleanup, find_job_for_tenant, template_for,
  add_trial, check_trial, create_trial,
}
use dsx_control_plane.Trials.Replay.{create_trial-again}
use dsx_control_plane.Tests.{cleaning, trial, env, admin, parse, market, trial_body}

abbrev trials : List Tenant
trials = trial 1000 ∷ record (trial 9000) { id = text "c2" } ∷ []

abbrev running_trials : Db
running_trials = record (cleaning TenantStatus.ready [] []) { tenants = trials }

abbrev cleanup_ids : Text → Text
cleanup_ids s = s

running_trials-IsKeyed : IsKeyed running_trials
unfolding row ◌==◌
running_trials-IsKeyed t (Memᴰ.head e) = rw e refl
running_trials-IsKeyed t (Memᴰ.tail (Memᴰ.head e)) = rw e refl
running_trials-IsKeyed t (Memᴰ.tail (Memᴰ.tail m)) = absurd (elim m [ ])

few : length (select (is_selected 2000) running_trials.tenants) ≤ batch_size
unfolding select is_selected is_running_trial same_kind same_status
few = omega arith

reconcile_expired_trials-Expires_example :
    Expires 2000
      (tenant_of running_trials (text "c1"))
      (tenant_of (reconcile_expired_trials cleanup_ids 2000 running_trials).after (text "c1"))
reconcile_expired_trials-Expires_example =
    reconcile_expired_trials-Expires cleanup_ids 2000 running_trials running_trials-IsKeyed
      (text "c1")

reconcile_expired_trials_complete_example :
    at_tenant
      (is_selected 2000)
      (tenant_of (reconcile_expired_trials cleanup_ids 2000 running_trials).after (text "c1"))
    ≡ false
reconcile_expired_trials_complete_example =
    reconcile_expired_trials_complete cleanup_ids 2000 running_trials running_trials-IsKeyed few
      (text "c1")

abbrev requested : Response × Db
requested = create_trial env (admin trial_body) (text "c9") (text "j9") 2000 market

requested-accepted : requested.0.status ≡ 201
unfolding create_trial check_trial add_trial is_admin bearer_token read_json
    parse_trial_request_input parse_tenant_input select_placement_node capacity placement_candidates
    same_sector offline_seconds parse template_for parse_trial_request check_trial_input
requested-accepted = refl

create_trial-again_example :
    (t : Tenant) × (t.id ≡ text "c9")
    × (t.environment_kind ≡ EnvironmentKind.trial)
    × (create_trial env (admin trial_body) (text "c8") (text "j8") 3000 requested.1 ≡ (
      record {
        status = 200;
        body =
            Body.trial
              (some (with_cleanup requested.1 t))
              (find_job_for_tenant requested.1 (text "c9"))
              true;
      },
      requested.1,
    ))
create_trial-again_example =
    create_trial-again env (admin trial_body) (text "c9") (text "j9") (text "c8") (text "j8") 2000
      3000 market requested-accepted

hostname :
    trial_hostname (text "kahve-1") (some (text " .Trial.example.com"))
    ≡ some (text "kahve-1.trial.example.com")
unfolding trial_hostname
hostname = refl

no_hostname : trial_hostname (text "kahve-1") (some (text "-trial.example.com")) ≡ none
unfolding trial_hostname
no_hostname = refl
