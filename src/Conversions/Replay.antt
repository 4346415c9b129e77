-- ===== src/Conversions/Replay.antt =====
-- Requests of deploy/cloudflare/src/trialConversion.ts and productionPlacement.ts that are sent
-- twice.
use mathlib.Core.Path.{subst}
use dsx_control_plane.Base.{
  ℕ, ◌≡◌, ◌≢◌, refl, sym, inl, inr, true, none, some, arith, ok, err, Option-cases, Result-cases,
}
use dsx_control_plane.Text.{Text, ==_iff, ==_refl}
use dsx_control_plane.Table.{row-append}
use dsx_control_plane.Db.{Db, conversion_of}
use dsx_control_plane.Db.States.{is_clean}
use dsx_control_plane.Db.Rows.{Conversion}
use dsx_control_plane.Http.{Env, Request}
use dsx_control_plane.Http.Response.{Response, conversion as conversion_body, conversion_placed}
use dsx_control_plane.Provisioning.Jobs.{job_by_key}
use dsx_control_plane.Cleanup.Jobs.{non_empty}
use dsx_control_plane.Conversions.Inputs.{TrialConversionRequestInput}
use dsx_control_plane.Db.Rows.{ProvisioningJob}
use dsx_control_plane.Db.States.{ProvisioningState}
use dsx_control_plane.Conversions.Placement.{
  placed_job, started_conversion, place_production, parse_placement, check_placement,
  check_placement_input, check_target, is_placed_on,
}
use dsx_control_plane.Conversions.Approval.{conversion_key}
use dsx_control_plane.Conversions.Placed.{place_production-IsPlaced}
use dsx_control_plane.Conversions.Requests.{
  trial_tenant, new_conversion, insert_conversion, add_conversion, conversion_by_key,
  check_conversion_input, parse_conversion_request, check_conversion, create_conversion,
}

add_conversion-key :
    (c : Conversion) (now : ℕ) (db db' : Db)
    → add_conversion c now db ≡ some db'
    → conversion_by_key db' c.request_key ≡ some c
unfolding add_conversion insert_conversion
add_conversion-key c now db db' h = ground (
  arith,
  row-append (λ x. x.request_key) c.request_key db.trial_conversion_requests c,
  ==_refl c.request_key,
)

add_conversion-tenants :
    (c : Conversion) (now : ℕ) (db db' : Db) (trial : Text)
    → add_conversion c now db ≡ some db'
    → trial_tenant db' trial ≡ trial_tenant db trial
unfolding add_conversion trial_tenant
add_conversion-tenants c now db db' trial h = ground arith

check_conversion-refused :
    (env : Env) (r : Request) (trial : Text) (db : Db) (e : Response)
    → check_conversion env r trial db ≡ err e
    → e.status ≢ 201
unfolding check_conversion parse_conversion_request check_conversion_input
check_conversion-refused env r trial db e h = ground arith

check_conversion_input-trial :
    (input : TrialConversionRequestInput) (trial : Text) (db : Db)
    → check_conversion_input input trial db ≡ ok tt
    → trial_tenant db trial ≢ none
unfolding check_conversion_input
check_conversion_input-trial input trial db h n = ground arith

check_conversion_input-again :
    (input : TrialConversionRequestInput) (trial : Text) (db : Db) (c : Conversion)
    → trial_tenant db trial ≢ none
    → conversion_by_key db input.idempotency_key ≡ some c
    → c.trial_tenant_id ≡ trial
    → check_conversion_input input trial db
      ≡ err (record { status = 200; body = conversion_body (some c) true })
unfolding check_conversion_input
check_conversion_input-again input trial db c t h own =
    ground (arith, ==_iff c.trial_tenant_id trial)

check_conversion-parts :
    (env : Env) (r : Request) (trial : Text) (db : Db) (input : TrialConversionRequestInput)
    → check_conversion env r trial db ≡ ok input
    → (parse_conversion_request env r ≡ ok input) × (check_conversion_input input trial db ≡ ok tt)
unfolding check_conversion
check_conversion-parts env r trial db input h =
    elim (Result-cases (parse_conversion_request env r)) [
      | inl (e, k) ↦ absurd (ground arith)
      | inr (i, k) ↦ elim (Result-cases (check_conversion_input i trial db)) [
        | inl (e, l) ↦ absurd (ground arith)
        | inr (_, l) ↦ (ground arith, ground arith)
      ]
    ]

check_conversion-again :
    (env : Env) (r : Request) (trial id : Text) (now : ℕ) (db db' : Db)
    (input : TrialConversionRequestInput)
    → check_conversion env r trial db ≡ ok input
    → add_conversion (new_conversion input id trial now) now db ≡ some db'
    → check_conversion env r trial db'
      ≡ err (record {
        status = 200;
        body = conversion_body (some (new_conversion input id trial now)) true;
      })
unfolding check_conversion
check_conversion-again env r trial id now db db' input h n =
    let (parsed, checked) = check_conversion-parts env r trial db input h in
    let c = new_conversion input id trial now in
    let there =
      subst (λ t. t ≢ none) (sym (add_conversion-tenants c now db db' trial n))
        (check_conversion_input-trial input trial db checked) in
    rw
      (
        parsed,
        check_conversion_input-again input trial db' c there (add_conversion-key c now db db' n)
            refl,
      )
      refl

-- A request that created a conversion, sent again with any other drawn id at any later time, is
-- answered with that conversion and `idempotent_replay: true`, and changes nothing.
pub create_conversion-again :
    (env : Env) (r : Request) (trial id id' : Text) (now now' : ℕ) (db : Db)
    → (create_conversion env r trial id now db).0.status ≡ 201
    → (c : Conversion) × (c.id ≡ id)
      × (c.trial_tenant_id ≡ trial)
      × (create_conversion env r trial id' now' (create_conversion env r trial id now db).1 ≡ (
        record { status = 200; body = conversion_body (some c) true },
        (create_conversion env r trial id now db).1,
      ))
unfolding create_conversion
create_conversion-again env r trial id id' now now' db h =
    elim (Result-cases (check_conversion env r trial db)) [
      | inl (e, f) ↦ absurd (check_conversion-refused env r trial db e f (ground arith))
      | inr (input, f) ↦
          let c = new_conversion input id trial now in
          elim (Option-cases (add_conversion c now db)) [
            | inl n ↦ absurd (ground arith)
            | inr (db', n) ↦
                let again = check_conversion-again env r trial id now db db' input f n in
                (c, refl, refl, rw (create_conversion, f, n, again) refl)
          ]
    ]

refused_again :
    (env : Env) (r : Request) (node trial conversion : Text) (now : ℕ) (db : Db) (e : Response)
    → parse_placement env r ≡ ok node
    → check_target node trial conversion db ≡ err e
    → place_production env r trial conversion now db ≡ (e, db)
unfolding place_production check_placement check_placement_input
refused_again env r node trial conversion now db e h k = rw (h, k) refl

check_target-again :
    (node trial conversion target : Text) (db : Db) (c : Conversion) (j : ProvisioningJob)
    → conversion_of db conversion ≡ some c
    → c.trial_tenant_id ≡ trial
    → is_clean c.mode ≡ true
    → non_empty c.target_tenant_id ≡ some target
    → job_by_key db target (conversion_key c.id) ≡ some j
    → is_placed_on c j node ≡ true
    → check_target node trial conversion db
      ≡ err (record { status = 200; body = conversion_placed (some c) (some j) true none })
unfolding check_target
check_target-again node trial conversion target db c j found own clean named job placed =
    ground (arith, ==_iff c.trial_tenant_id trial)

module _ (env : Env) (r : Request) (trial conversion : Text) (now now' : ℕ) (db : Db) where
  -- A placement that was made, sent again at any later time, is answered with the conversion and
  -- its job as they are, and `idempotent_replay: true`, and changes nothing.
  pub place_production-again :
      (place_production env r trial conversion now db).0.status ≡ 201
      → let after = (place_production env r trial conversion now db).1 in
        (c : Conversion) × (j : ProvisioningJob) × (conversion_of after conversion ≡ some c)
        × (j.state ≡ ProvisioningState.placed)
        × (place_production env r trial conversion now' after ≡ (
          record { status = 200; body = conversion_placed (some c) (some j) true none },
          after,
        ))
  unfolding is_placed_on is_clean
  place_production-again h = elim (place_production-IsPlaced env r trial conversion now db) [
    | inl (n, _) ↦ absurd (n h)
    | inr (_, p) ↦
        let c = started_conversion now p.plan.request in
        let j = placed_job p.plan.node_id now p.plan.job in
        let again =
          check_target-again p.plan.node_id trial conversion p.plan.target.id _ c j p.request
            p.admitted.own (rw p.admitted.clean refl) p.admitted.target p.job
            (rw (==_refl p.plan.node_id) refl) in
        (
          c,
          j,
          p.request,
          refl,
          refused_again env r p.plan.node_id trial conversion now' _ _ p.asked again,
        )
  ]
