-- ===== src/Tests/Cleanup.antt =====
-- Clean-ups on concrete inputs.
use dsx_control_plane.Base.{◌≡◌, refl, true, none, some, [], ◌∷◌, arith, ok}
use dsx_control_plane.Text.{text}
use dsx_control_plane.Table.{row}
use dsx_control_plane.Db.{Db, cleanup_of}
use dsx_control_plane.Db.States.{CleanupState, TenantStatus, EnvironmentKind}
use dsx_control_plane.Db.Rows.{CleanupJob}
use dsx_control_plane.Json.{end}
use dsx_control_plane.Http.{authenticate_node, bearer_token, is_admin, is_live, read_json}
use dsx_control_plane.Http.Response.{Operation, operation, cleanup_job}
use dsx_control_plane.Time.{lease_end}
use dsx_control_plane.Cleanup.Jobs.{Cleanable, check_request, queue_cleanup, request_cleanup}
use dsx_control_plane.Cleanup.Operations.{
  claim_cleanup_operation, mark_expired_cleanup_leases, cleanup_payload,
}
use dsx_control_plane.Cleanup.Report.{
  CleanupReported, CleanupOperationResultInput, parse_cleanup_operation_result,
  check_cleanup_report, write_cleanup, report_cleanup_result,
}
use dsx_control_plane.Cleanup.Protocol.{
  claims, reports, here, next, IsLeased, is_leased, cleanup_follows,
}
use dsx_control_plane.Cleanup.Protocol.Moves.{CleanupStep-follows, CleanupReach-IsLeased}
use dsx_control_plane.Cleanup.Requests.{IsQueued, request_cleanup-IsQueued, request_cleanup-again}
use dsx_control_plane.Cleanup.Outcomes.{
  IsFinished, IsClaimed, report_cleanup_result-IsFinished, claim_cleanup_operation-IsClaimed,
}
use dsx_control_plane.Tests.{env, admin, agent, cleanup, cleaning, cleanup_lease, cleaned_body}

abbrev provisioned : Db
provisioned = cleaning TenantStatus.ready [] []

abbrev queue : Db
queue = cleaning TenantStatus.suspended (cleanup CleanupState.queued ∷ []) []

abbrev under_way : Db
under_way = cleaning TenantStatus.suspended (cleanup CleanupState.running ∷ []) (cleanup_lease ∷ [])

requested :
    (request_cleanup env (admin end) (text "c1") (text "k1") 2000 provisioned).0.status ≡ 201
unfolding check_request request_cleanup is_admin bearer_token is_live queue_cleanup
requested = refl

request_cleanup-IsQueued_example :
    (c : Cleanable) × IsQueued c
      (text "c1")
      (text "k1")
      2000
      provisioned
      (request_cleanup env (admin end) (text "c1") (text "k1") 2000 provisioned).1
request_cleanup-IsQueued_example =
    request_cleanup-IsQueued env (admin end) (text "c1") (text "k1") 2000 provisioned requested

request_cleanup-again_example :
    (j : CleanupJob) × (cleanup_of
        (request_cleanup env (admin end) (text "c1") (text "k1") 2000 provisioned).1
        (text "k1")
      ≡ some j)
    × (request_cleanup env
          (admin end)
          (text "c1")
          (text "k2")
          3000
          (request_cleanup env (admin end) (text "c1") (text "k1") 2000 provisioned).1
        ≡ (
          record { status = 200; body = cleanup_job (some j) true },
          (request_cleanup env (admin end) (text "c1") (text "k1") 2000 provisioned).1,
        ))
request_cleanup-again_example =
    request_cleanup-again env (admin end) (text "c1") (text "k1") (text "k2") 2000 3000 provisioned
      requested

abbrev reported : CleanupOperationResultInput
reported = record {
  lease_token = text "lease-token-0000-1";
  state = CleanupReported.cleaned;
  error_code = none;
}

checked :
    check_cleanup_report env (agent cleaned_body) (text "n1") (text "k1") 2000 under_way
    ≡ ok (reported, cleanup CleanupState.running)
unfolding check_cleanup_report authenticate_node bearer_token is_live read_json
    parse_cleanup_operation_result
checked = refl

accepted :
    (report_cleanup_result env (agent cleaned_body) (text "n1") (text "k1") 2000 under_way).0.status
    ≡ 200
unfolding report_cleanup_result check_cleanup_report authenticate_node bearer_token is_live
    read_json parse_cleanup_operation_result write_cleanup
accepted = refl

report_cleanup_result-IsFinished_example :
    IsFinished reported
      (cleanup CleanupState.running)
      (text "k1")
      2000
      under_way
      (report_cleanup_result env (agent cleaned_body) (text "n1") (text "k1") 2000 under_way).1
report_cleanup_result-IsFinished_example =
    report_cleanup_result-IsFinished env (agent cleaned_body) (text "n1") (text "k1") 2000 under_way
      reported (cleanup CleanupState.running) checked (λ e. ground arith) accepted

abbrev handed_out : Operation
handed_out = record {
  id = text "k1";
  type = "cleanup_test_odoo_environment";
  lease_token = text "lease-token-0000-2";
  lease_expires_at = lease_end env.node_operation_lease_seconds 2000;
  payload =
      cleanup_payload
        (record { job = cleanup CleanupState.queued; environment_kind = EnvironmentKind.test });
}

claimed :
    (claim_cleanup_operation env (agent end) (text "n1") (text "lease-token-0000-2") 2000 queue).0
    ≡ some (record { status = 200; body = operation (some handed_out) })
unfolding claim_cleanup_operation authenticate_node bearer_token is_live cleanup_payload
claimed = refl

claim_cleanup_operation-IsClaimed_example :
    (authenticate_node env (agent end) (text "n1") queue ≡ true)
    × IsClaimed env handed_out
        (text "n1")
        (text "lease-token-0000-2")
        2000
        (mark_expired_cleanup_leases (text "n1") 2000 queue)
        (claim_cleanup_operation env
          (agent end)
          (text "n1")
          (text "lease-token-0000-2")
          2000
          queue).1
claim_cleanup_operation-IsClaimed_example =
    claim_cleanup_operation-IsClaimed env (agent end) (text "n1") (text "lease-token-0000-2") 2000
      queue handed_out claimed

CleanupStep-follows_example :
    cleanup_follows (cleanup_of under_way (text "k1")) (
      cleanup_of
        (report_cleanup_result env (agent cleaned_body) (text "n1") (text "k1") 2000 under_way).1
        (text "k1"))
    ≡ true
CleanupStep-follows_example =
    CleanupStep-follows env under_way _ (reports (agent cleaned_body) (text "n1") (text "k1") 2000)
      (text "k1")

queue-IsLeased : IsLeased queue
unfolding is_leased row
queue-IsLeased i = ground arith

CleanupReach-IsLeased_example :
    IsLeased
      (claim_cleanup_operation env (agent end) (text "n1") (text "lease-token-0000-2") 2000 queue).1
CleanupReach-IsLeased_example =
    CleanupReach-IsLeased env queue _
      (next here (claims (agent end) (text "n1") (text "lease-token-0000-2") 2000)) queue-IsLeased
