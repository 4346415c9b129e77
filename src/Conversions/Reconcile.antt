-- ===== src/Conversions/Reconcile.antt =====
-- deploy/cloudflare/src/trialConversionReconcile.ts: conversions follow their provisioning jobs.
use dsx_control_plane.Base.{
  ℕ, ◌+◌, Bool, true, false, not, ◌&&◌, ◌||◌, Option, none, some, List, [], ◌∷◌, ◌++◌, ltb, eqb,
  min, max, map, if◌then◌else◌,
}
use dsx_control_plane.Base.Lists.{find, select, some_of, take}
use dsx_control_plane.Text.{Text, ◌==◌, text}
use dsx_control_plane.Table.{row, update}
use dsx_control_plane.Table.Order.{sort}
use dsx_control_plane.Db.{Db, tenant_of, job_of, conversion_of}
use dsx_control_plane.Db.States.{
  EnvironmentKind, ConversionState, ProvisioningState, same_kind, same_conversion, is_clean,
  conversion_word,
}
use dsx_control_plane.Db.Rows.{Tenant, ProvisioningJob, Conversion, Payload, word, text as txt}
use dsx_control_plane.Provisioning.Machine.{state_word}
use dsx_control_plane.Provisioning.Retry.{code_value}
use dsx_control_plane.Provisioning.Operations.Report.{coalesce}
use dsx_control_plane.Cleanup.Jobs.{non_empty}
use dsx_control_plane.Conversions.Requests.{conversion_audit}
use dsx_control_plane.Conversions.Approval.{conversion_key}
use dsx_control_plane.Conversions.Placement.{is_text}

unfoldable pub conversion_state_for : ProvisioningState → Option ConversionState
conversion_state_for ProvisioningState.queued = none
conversion_state_for ProvisioningState.ready = some ConversionState.ready
conversion_state_for ProvisioningState.failed = some ConversionState.failed
conversion_state_for _ = some ConversionState.provisioning

abbrev is_production : Option Tenant → Bool
is_production none = false
is_production (some t) = same_kind t.environment_kind EnvironmentKind.production

-- The join of the two queries, for a job and a conversion.
unfoldable pub is_linked : Db → ProvisioningJob → Conversion → Bool
unfolding row same_kind is_clean ◌==◌
is_linked db j c =
    is_production (tenant_of db j.tenant_id)
    && is_text c.target_tenant_id j.tenant_id
    && is_clean c.mode
    && j.idempotency_key == conversion_key c.id

unfoldable pub linked_conversion : Db → ProvisioningJob → Option Conversion
unfolding find is_linked
linked_conversion db j = find (is_linked db j) db.trial_conversion_requests

-- approved or provisioning
unfoldable pub is_under_way : ConversionState → Bool
is_under_way ConversionState.approved = true
is_under_way ConversionState.provisioning = true
is_under_way _ = false

-- The condition of the update.
unfoldable pub is_open_for : Option Text → Conversion → Bool
unfolding is_under_way ◌==◌
is_open_for none c = false
is_open_for (some target) c = is_text c.target_tenant_id target && is_under_way c.state

abbrev pub or_now : Option ℕ → ℕ → ℕ
or_now none now = now
or_now (some t) now = t

abbrev default_code : Option Text → Text
default_code none = text "production_provisioning_failed"
default_code (some code) = code

abbrev pub reconciled_code : ProvisioningJob → ConversionState → Option Text
reconciled_code j ConversionState.failed = some (default_code (non_empty j.error_code))
reconciled_code j _ = none

abbrev finish_time : ProvisioningJob → ConversionState → ℕ → Option ℕ
finish_time j ConversionState.ready now = some (or_now j.finished_at now)
finish_time j ConversionState.failed now = some (or_now j.finished_at now)
finish_time j _ now = none

abbrev pub reconciled_conversion : ProvisioningJob → ConversionState → ℕ → Conversion → Conversion
reconciled_conversion j s now c = record c {
  state = s;
  error_code = reconciled_code j s;
  started_at = coalesce c.started_at (or_now j.started_at now);
  finished_at = finish_time j s now;
  updated_at = now;
}

abbrev reconcile_payload : ProvisioningJob → Conversion → ConversionState → Payload
reconcile_payload j c s =
    ("provisioning_job_id", txt j.id)
    ∷ ("provisioning_state", word (state_word j.state))
    ∷ ("conversion_state", word (conversion_word s))
    ∷ ("target_tenant_id", code_value c.target_tenant_id)
    ∷ ("error_code", code_value (reconciled_code j s))
    ∷ []

abbrev pub admits : (Conversion → Bool) → Option Conversion → Bool
admits cond none = false
admits cond (some c) = cond c

-- The update, and the audit event if it has returned a row.
unfoldable pub write_conversion :
    ProvisioningJob → Conversion → ConversionState → ℕ → Db → Bool × Db
unfolding row update is_open_for
write_conversion j c s now db =
    if admits (is_open_for c.target_tenant_id) (conversion_of db c.id)
    then (
      true,
      record db {
        trial_conversion_requests =
            update (λ x. x.id) c.id (is_open_for c.target_tenant_id) (reconciled_conversion j s now)
              db.trial_conversion_requests;
        audit_events =
            db.audit_events
            ++ conversion_audit "trial.conversion.provisioning_reconciled" "system"
                "trial_conversion" c.id (reconcile_payload j c s) now
              ∷ [];
      },
    )
    else (false, db)

-- `s` is the state that the job's stands for.
abbrev pub reconcile_to : ProvisioningJob → Conversion → Option ConversionState → ℕ → Db → Bool × Db
reconcile_to j c none now db = (false, db)
reconcile_to j c (some s) now db =
    if same_conversion c.state s || not (is_under_way c.state)
    then (false, db)
    else write_conversion j c s now db

abbrev pub reconcile_linked : ProvisioningJob → Option Conversion → ℕ → Db → Bool × Db
reconcile_linked j none now db = (false, db)
reconcile_linked j (some c) now db = reconcile_to j c (conversion_state_for j.state) now db

-- Whether the conversion has changed, and the database after.
unfoldable pub reconcile_trial_conversion : Text → ℕ → Db → Bool × Db
unfolding row ◌==◌ linked_conversion conversion_state_for same_conversion is_under_way
    write_conversion
reconcile_trial_conversion job_id now db = elim (job_of db job_id) [
  | none ↦ (false, db)
  | some j ↦ reconcile_linked j (linked_conversion db j) now db
]

abbrev is_known : ProvisioningState → Bool
is_known ProvisioningState.queued = false
is_known _ = true

unfoldable pub awaits_reconciliation : Db → ProvisioningJob → Bool
unfolding some_of is_linked is_under_way
awaits_reconciliation db j =
    is_known j.state
    && some_of (λ c. is_linked db j c && is_under_way c.state) db.trial_conversion_requests

abbrev oldest_update_first : ProvisioningJob → ProvisioningJob → Bool
oldest_update_first a b = ltb a.updated_at b.updated_at

-- Math.max(1, Math.min(100, Math.trunc(limit || 50)))
unfoldable pub bounded_limit : ℕ → ℕ
bounded_limit limit = max 1 (min 100 (if eqb limit 0 then 50 else limit))

-- A job stands for one row, as at most one conversion has its key.
unfoldable pub reconcilable_jobs : ℕ → Db → List Text
unfolding sort select awaits_reconciliation bounded_limit
reconcilable_jobs limit db =
    map (λ j. j.id)
      (take (bounded_limit limit)
        (sort oldest_update_first (select (awaits_reconciliation db) db.provisioning_jobs)))

unfoldable pub reconcile_jobs : List Text → ℕ → ℕ → Db → ℕ × Db
unfolding reconcile_trial_conversion
reconcile_jobs [] now changed db = (changed, db)
reconcile_jobs (id ∷ ids) now changed db =
    let (did, after) = reconcile_trial_conversion id now db in
    reconcile_jobs ids now (if did then changed + 1 else changed) after

unfoldable pub reconcile_active_trial_conversions : ℕ → ℕ → Db → ℕ × Db
unfolding reconcilable_jobs reconcile_jobs
reconcile_active_trial_conversions limit now db =
    reconcile_jobs (reconcilable_jobs limit db) now 0 db
