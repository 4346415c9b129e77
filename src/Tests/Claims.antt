-- ===== src/Tests/Claims.antt =====
-- A claim and a retry of provisioning jobs on concrete inputs.
use dsx_control_plane.Base.{◌≡◌, refl, true, some, [], ◌∷◌, ok}
use dsx_control_plane.Text.{text, ◌==◌}
use dsx_control_plane.Time.{lease_end}
use dsx_control_plane.Table.{row}
use dsx_control_plane.Json.{end}
use dsx_control_plane.Db.{Db, tenant_of}
use dsx_control_plane.Db.States.{ProvisioningState, TenantStatus}
use dsx_control_plane.Db.Rows.{Tenant}
use dsx_control_plane.Http.{authenticate_node, bearer_token, is_admin, is_live}
use dsx_control_plane.Http.Response.{Operation, operation}
use dsx_control_plane.Provisioning.DatabaseName.{provision_payload}
use dsx_control_plane.Provisioning.Retry.{check_retry, retry_provisioning_job}
use dsx_control_plane.Provisioning.Operations.{mark_expired_leases}
use dsx_control_plane.Provisioning.Operations.Claim.{claim_next_operation}
use dsx_control_plane.Provisioning.Claimed.{
  IsHandedOut, claim_next_operation-IsHandedOut, IsRequeued, retry_provisioning_job-IsRequeued,
}
use dsx_control_plane.Tests.{env, admin, agent, job, tenant, template, waiting, database}

abbrev handed_out : Operation
handed_out = record {
  id = text "j1";
  type = "provision_odoo_environment";
  lease_token = text "lease-token-0000-1";
  lease_expires_at = lease_end env.node_operation_lease_seconds 2000;
  payload =
      provision_payload env.json_parse (tenant TenantStatus.provisioning (some (text "n1")))
        template;
}

claimed :
    (claim_next_operation env (agent end) (text "n1") (text "lease-token-0000-1") 2000 waiting).0
    ≡ record { status = 200; body = operation (some handed_out) }
unfolding claim_next_operation authenticate_node bearer_token is_live
claimed = refl

claim_next_operation-IsHandedOut_example :
    (authenticate_node env (agent end) (text "n1") waiting ≡ true)
    × IsHandedOut env handed_out
        (text "n1")
        (text "lease-token-0000-1")
        2000
        (mark_expired_leases (text "n1") 2000 waiting)
        (claim_next_operation env
          (agent end)
          (text "n1")
          (text "lease-token-0000-1")
          2000
          waiting).1
claim_next_operation-IsHandedOut_example =
    claim_next_operation-IsHandedOut env (agent end) (text "n1") (text "lease-token-0000-1") 2000
      waiting handed_out claimed

-- The tenant is ready through another job.
abbrev served : Tenant
served = record (tenant TenantStatus.ready (some (text "n2"))) {
  database_name = some (text "dsx_cafe_x");
}

abbrev serving : Db
serving = database (served ∷ []) (job ProvisioningState.failed ∷ []) []

retried :
    check_retry env (admin end) (text "j1") serving ≡ ok (job ProvisioningState.failed, text "n1")
unfolding check_retry is_admin bearer_token is_live row
retried = refl

found : tenant_of serving (text "c1") ≡ some served
unfolding row ◌==◌
found = refl

retry_provisioning_job-IsRequeued_example :
    (ProvisioningState.failed ≡ ProvisioningState.failed)
    × IsRequeued served
        (text "n1")
        2000
        (tenant_of (retry_provisioning_job env (admin end) (text "j1") 2000 serving).1 (text "c1"))
retry_provisioning_job-IsRequeued_example =
    retry_provisioning_job-IsRequeued env (admin end) (text "j1") 2000 serving
      (job ProvisioningState.failed) (text "n1") served retried found
