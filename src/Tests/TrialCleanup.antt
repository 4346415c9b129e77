-- ===== src/Tests/TrialCleanup.antt =====
-- The clean-up of a trial on concrete inputs.
use dsx_control_plane.Base.{◌≡◌, refl, true, none, some, List, [], ◌∷◌, ok}
use dsx_control_plane.Text.{text}
use dsx_control_plane.Json.{end}
use dsx_control_plane.Db.{Db}
use dsx_control_plane.Db.States.{CleanupState, TenantStatus, TrialState}
use dsx_control_plane.Db.Rows.{Tenant, Lease}
use dsx_control_plane.Http.{authenticate_node, bearer_token, is_live, read_json}
use dsx_control_plane.Http.Response.{Response, Operation, operation}
use dsx_control_plane.Cleanup.Report.{
  CleanupReported, CleanupOperationResultInput, parse_cleanup_operation_result,
}
use dsx_control_plane.Trials.Cleanup.Claim.{
  mark_expired_trial_cleanup_leases, trial_cleanup_operation, claim_trial_cleanup,
}
use dsx_control_plane.Trials.Cleanup.Report.{
  check_trial_report, write_trial_cleanup, report_trial_cleanup_result,
}
use dsx_control_plane.Trials.Cleanup.Outcomes.{
  IsTrialClaimed, claim_trial_cleanup-IsTrialClaimed, IsCleaned,
  report_trial_cleanup_result-IsCleaned,
}
use dsx_control_plane.Tests.{env, agent, cleanup, cleaning, cleanup_lease, cleaned_body, trial}

abbrev pending_trial : Tenant
pending_trial = record (trial 1000) {
  status = TenantStatus.suspended;
  trial_state = some TrialState.cleanup_pending;
}

abbrev pending : CleanupState → List Lease → Db
pending state leases = record (cleaning TenantStatus.suspended (cleanup state ∷ []) leases) {
  tenants = pending_trial ∷ [];
}

abbrev answer : Response
answer =
    trial_cleanup_operation env
      (record { job = cleanup CleanupState.queued; tenant = pending_trial })
      (text "lease-token-0000-2") 2000

claimed :
    (claim_trial_cleanup env
      (agent end)
      (text "n1")
      (text "lease-token-0000-2")
      2000
      (pending CleanupState.queued [])).0
    ≡ some answer
unfolding claim_trial_cleanup authenticate_node bearer_token is_live
claimed = refl

claim_trial_cleanup-IsTrialClaimed_example :
    (authenticate_node env (agent end) (text "n1") (pending CleanupState.queued []) ≡ true)
    × ((op : Operation) × (answer ≡ record { status = 200; body = operation (some op) })
        × IsTrialClaimed env op
            (text "n1")
            (text "lease-token-0000-2")
            2000
            (mark_expired_trial_cleanup_leases (text "n1") 2000 (pending CleanupState.queued []))
            (claim_trial_cleanup env
              (agent end)
              (text "n1")
              (text "lease-token-0000-2")
              2000
              (pending CleanupState.queued [])).1)
claim_trial_cleanup-IsTrialClaimed_example =
    claim_trial_cleanup-IsTrialClaimed env (agent end) (text "n1") (text "lease-token-0000-2") 2000
      (pending CleanupState.queued []) answer claimed refl

abbrev reported : CleanupOperationResultInput
reported = record {
  lease_token = text "lease-token-0000-1";
  state = CleanupReported.cleaned;
  error_code = none;
}

abbrev under_way : Db
under_way = pending CleanupState.running (cleanup_lease ∷ [])

checked :
    check_trial_report env (agent cleaned_body) (text "n1") (text "k1") 2000 under_way
    ≡ ok (reported, cleanup CleanupState.running)
unfolding check_trial_report authenticate_node bearer_token is_live read_json
    parse_cleanup_operation_result
checked = refl

accepted :
    (report_trial_cleanup_result env
      (agent cleaned_body)
      (text "n1")
      (text "k1")
      2000
      under_way).0.status
    ≡ 200
unfolding report_trial_cleanup_result check_trial_report authenticate_node bearer_token is_live
    read_json parse_cleanup_operation_result write_trial_cleanup
accepted = refl

report_trial_cleanup_result-IsCleaned_example :
    IsCleaned
      (cleanup CleanupState.running)
      (text "k1")
      2000
      under_way
      (report_trial_cleanup_result env
        (agent cleaned_body)
        (text "n1")
        (text "k1")
        2000
        under_way).1
report_trial_cleanup_result-IsCleaned_example =
    report_trial_cleanup_result-IsCleaned env (agent cleaned_body) (text "n1") (text "k1") 2000
      under_way reported (cleanup CleanupState.running) checked refl accepted
