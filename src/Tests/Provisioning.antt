-- ===== src/Tests/Provisioning.antt =====
-- Provisioning on concrete inputs.
use dsx_control_plane.Base.Lists.{length}
use dsx_control_plane.Base.{◌≤◌, ◌≡◌, ◌≢◌, refl, true, none, some, arith, ok}
use dsx_control_plane.Text.{text, ◌==◌}
use dsx_control_plane.Time.{offline_seconds}
use dsx_control_plane.Table.{row}
use dsx_control_plane.Db.{job_of}
use dsx_control_plane.Db.States.{ProvisioningState, TenantStatus, same_sector, same_state}
use dsx_control_plane.Db.Rows.{ProvisioningJob}
use dsx_control_plane.Json.{end, Fields, get, string_value}
use dsx_control_plane.Http.{authenticate_node, bearer_token, is_admin, is_live, read_json}
use dsx_control_plane.Http.Response.{job as job_body_of}
use dsx_control_plane.Provisioning.Jobs.{
  create_provisioning_job, check_job_request, check_job_input, parse_job_request, place_job,
  is_provisionable, placement_candidates,
}
use dsx_control_plane.Provisioning.Inputs.{parse_provisioning_job_input}
use dsx_control_plane.Provisioning.Placement.{select_placement_node, capacity}
use dsx_control_plane.Provisioning.Retry.{check_retry, retry_provisioning_job}
use dsx_control_plane.Provisioning.Results.{Reported, OperationResultInput, parse_operation_result}
use dsx_control_plane.Provisioning.Operations.Claim.{Source, claim_next_operation}
use dsx_control_plane.Provisioning.Operations.Report.{
  check_report, report_operation_result, apply_report,
}
use dsx_control_plane.Provisioning.Protocol.{
  claims, reports, retries, here, next, IsTracked, tracked, follows, reached_ready,
}
use dsx_control_plane.Provisioning.Protocol.Moves.{Step-follows, Reach-IsTracked, Reach-ready}
use dsx_control_plane.Provisioning.Replay.{create_provisioning_job-again}
use dsx_control_plane.Provisioning.Reports.Ready.{IsReady, report_operation_result-IsReady}
use dsx_control_plane.Provisioning.Reports.{
  IsAuthorized, report_operation_result-IsAuthorized, report_operation_result-unchanged,
  report_operation_result-once,
}
use dsx_control_plane.Tests.{
  env, parse, fresh, waiting, working, broken, done, job, tenant, template, admin, agent, job_body,
  ready_body,
}

opened : Unit {0}
unfolding create_provisioning_job check_job_request check_job_input parse_job_request is_admin
    bearer_token read_json parse_provisioning_job_input select_placement_node capacity place_job
    is_provisionable placement_candidates same_sector offline_seconds parse check_retry
    retry_provisioning_job is_live check_report report_operation_result parse_operation_result
    apply_report authenticate_node
opened = tt

created : (create_provisioning_job env (admin job_body) (text "j1") 2000 fresh).0.status ≡ 201
unfolding opened
created = refl

create_provisioning_job-again_example :
    (j : ProvisioningJob) × (job_of
        (create_provisioning_job env (admin job_body) (text "j1") 2000 fresh).1
        (text "j1")
      ≡ some j)
    × (create_provisioning_job env
          (admin job_body)
          (text "j2")
          3000
          (create_provisioning_job env (admin job_body) (text "j1") 2000 fresh).1
        ≡ (
          record { status = 200; body = job_body_of (some j) true },
          (create_provisioning_job env (admin job_body) (text "j1") 2000 fresh).1,
        ))
create_provisioning_job-again_example =
    create_provisioning_job-again env (admin job_body) (text "j1") (text "j2") 2000 3000 fresh
      created

retried :
    check_retry env (admin end) (text "j1") broken ≡ ok (job ProvisioningState.failed, text "n1")
unfolding opened
retried = refl

accepted :
    (report_operation_result env (agent ready_body) (text "n1") (text "j1") 2000 working).0.status
    ≡ 200
unfolding opened
accepted = refl

report_operation_result-IsAuthorized_example :
    (body : Fields) × (read_json (agent ready_body) ≡ some body)
    × (16 ≤ length (string_value (get body (text "lease_token")) 256))
    × IsAuthorized env
        (agent ready_body)
        (text "n1")
        (text "j1")
        (string_value (get body (text "lease_token")) 256)
        2000
        working
report_operation_result-IsAuthorized_example =
    report_operation_result-IsAuthorized env (agent ready_body) (text "n1") (text "j1") 2000 working
      accepted

late :
    (report_operation_result env (agent ready_body) (text "n1") (text "j1") 5000 working).0.status
    ≡ 409
unfolding opened
late = refl

report_operation_result-unchanged_example :
    (report_operation_result env (agent ready_body) (text "n1") (text "j1") 5000 working).1
    ≡ working
report_operation_result-unchanged_example =
    report_operation_result-unchanged env (agent ready_body) (text "n1") (text "j1") 5000 working
      (λ e. ground (arith, late))

abbrev reported : OperationResultInput
reported = record {
  lease_token = text "lease-token-0000-1";
  state = Reported.ready;
  error_code = none;
  database_name = some (text "dsx_cafe_my_cafe_c1");
}

abbrev source : Source
source = record {
  job = job ProvisioningState.running;
  tenant = tenant TenantStatus.provisioning (some (text "n1"));
  template = template;
}

checked :
    check_report env (agent ready_body) (text "n1") (text "j1") 2000 working ≡ ok (reported, source)
unfolding opened
checked = refl

report_operation_result-once_example :
    (report_operation_result env
      (agent ready_body)
      (text "n1")
      (text "j1")
      2001
      (report_operation_result env
        (agent ready_body)
        (text "n1")
        (text "j1")
        2000
        working).1).0.status
    ≢ 200
report_operation_result-once_example =
    report_operation_result-once env (agent ready_body) (text "n1") (text "j1") 2000 working
      reported source checked (λ e. ground arith) accepted (agent ready_body) (text "n1") 2001

report_operation_result-IsReady_example :
    IsReady reported source
      (text "j1")
      2000
      (report_operation_result env (agent ready_body) (text "n1") (text "j1") 2000 working).1
report_operation_result-IsReady_example =
    report_operation_result-IsReady env (agent ready_body) (text "n1") (text "j1") 2000 working
      reported source checked refl accepted

Step-follows_example :
    follows (job_of working (text "j1")) (
      job_of
        (report_operation_result env (agent ready_body) (text "n1") (text "j1") 2000 working).1
        (text "j1"))
    ≡ true
Step-follows_example =
    Step-follows env working _ (reports (agent ready_body) (text "n1") (text "j1") 2000) (text "j1")

waiting-IsTracked : IsTracked waiting
unfolding tracked row
waiting-IsTracked i = ground arith

Reach-IsTracked_example :
    IsTracked
      (claim_next_operation env (agent end) (text "n1") (text "lease-token-0000-1") 2000 waiting).1
Reach-IsTracked_example =
    Reach-IsTracked env waiting _
      (next here (claims (agent end) (text "n1") (text "lease-token-0000-1") 2000))
      waiting-IsTracked

done-ready : reached_ready (job_of done (text "j1")) ≡ true
unfolding row same_state ◌==◌
done-ready = refl

Reach-ready_example :
    reached_ready
      (job_of (retry_provisioning_job env (admin end) (text "j1") 2000 done).1 (text "j1"))
    ≡ true
Reach-ready_example =
    Reach-ready env done _ (next here (retries (admin end) (text "j1") 2000)) (text "j1") done-ready
