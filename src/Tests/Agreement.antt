-- ===== src/Tests/Agreement.antt =====
-- The reconciliation of a conversion with its job on concrete inputs.
use dsx_control_plane.Base.{inr, ◌≡◌, refl, false, none, some, [], ◌∷◌}
use dsx_control_plane.Base.Lists.{find}
use dsx_control_plane.Text.{text, ◌==◌}
use dsx_control_plane.Table.{row}
use dsx_control_plane.Db.{Db, conversion_of}
use dsx_control_plane.Db.States.{
  ConversionState, ConversionMode, EnvironmentKind, ProvisioningState, TenantStatus, is_clean,
  same_kind,
}
use dsx_control_plane.Db.Rows.{Conversion, ProvisioningJob}
use dsx_control_plane.Conversions.Approval.{conversion_key}
use dsx_control_plane.Conversions.Reconcile.{
  is_linked, linked_conversion, is_under_way, reconcile_trial_conversion,
  reconcile_active_trial_conversions,
}
use dsx_control_plane.Conversions.Agreement.{
  IsPair, reconcile_trial_conversion-again, reconcile_trial_conversion-idle,
}
use dsx_control_plane.Conversions.Mirror.{Mirrors, IsFramed, reconcile_trial_conversion-Mirrors}
use dsx_control_plane.Tests.{database, tenant, job}

abbrev pair_job : ProvisioningState → ProvisioningJob
pair_job state = record (job state) { idempotency_key = conversion_key (text "a1") }

abbrev pair_conversion : ConversionState → Conversion
pair_conversion state = record {
  id = text "a1";
  trial_tenant_id = text "c0";
  request_key = text "convert-1";
  mode = ConversionMode.clean_production;
  state = state;
  target_tenant_id = some (text "c1");
  promotion_confirmed_at = none;
  error_code = none;
  requested_at = 0;
  updated_at = 0;
  started_at = none;
  finished_at = none;
}

abbrev pair : ConversionState → ProvisioningState → Db
pair c j =
    record (database
      (record (tenant TenantStatus.provisioning none) {
        environment_kind = EnvironmentKind.production;
      }
        ∷ [])
      (pair_job j ∷ []) []) { trial_conversion_requests = pair_conversion c ∷ [] }

pair-IsPair :
    (c : ConversionState) (j : ProvisioningState)
    → IsPair (pair c j) (text "j1") (pair_job j) (pair_conversion c)
unfolding row ◌==◌ linked_conversion is_linked is_clean same_kind find
pair-IsPair c j = record { job = refl; linked = refl; keyed = refl }

abbrev due : Db
due = pair ConversionState.provisioning ProvisioningState.ready

reconcile_trial_conversion-Mirrors_example :
    (c' : Conversion) × (conversion_of (reconcile_trial_conversion (text "j1") 7 due).1 (text "a1")
      ≡ some c')
    × Mirrors (pair_job ProvisioningState.ready) 7 (pair_conversion ConversionState.provisioning) c'
    × IsFramed (text "a1") due (reconcile_trial_conversion (text "j1") 7 due).1
reconcile_trial_conversion-Mirrors_example =
    reconcile_trial_conversion-Mirrors (text "j1") 7 due (pair_job ProvisioningState.ready)
      (pair_conversion ConversionState.provisioning)
      (pair-IsPair ConversionState.provisioning ProvisioningState.ready) (inr refl)

reconcile_trial_conversion-again_example :
    reconcile_trial_conversion (text "j1") 8 (reconcile_trial_conversion (text "j1") 7 due).1
    ≡ (false, (reconcile_trial_conversion (text "j1") 7 due).1)
reconcile_trial_conversion-again_example =
    reconcile_trial_conversion-again (text "j1") 7 8 due (pair_job ProvisioningState.ready)
      (pair_conversion ConversionState.provisioning)
      (pair-IsPair ConversionState.provisioning ProvisioningState.ready)

-- A conversion that had failed is left failed although its job is ready by now.
left_failed :
    reconcile_trial_conversion (text "j1") 7 (pair ConversionState.failed ProvisioningState.ready)
    ≡ (false, pair ConversionState.failed ProvisioningState.ready)
unfolding is_under_way
left_failed =
    reconcile_trial_conversion-idle (text "j1") 7
      (pair ConversionState.failed ProvisioningState.ready) (pair_job ProvisioningState.ready)
      (pair_conversion ConversionState.failed)
      (pair-IsPair ConversionState.failed ProvisioningState.ready) refl

-- The scheduled run brings the one conversion that is behind up to date.
caught_up : (reconcile_active_trial_conversions 50 7 due).0 ≡ 1
unfolding reconcile_active_trial_conversions
caught_up = refl
