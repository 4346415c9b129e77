-- ===== src/Tests/Conversions.antt =====
-- The conversion of a trial on concrete inputs: requested, approved, placed and reconciled.
use dsx_control_plane.Base.{◌≤◌, ◌≡◌, ◌≢◌, ◌⊎◌, refl, [], ok, true, false, none, some, arith}
use dsx_control_plane.Base.Lists.{length, count_where}
use dsx_control_plane.Text.{text, is_empty}
use dsx_control_plane.Text.Patterns.{safe_slug}
use dsx_control_plane.Json.{end, get}
use dsx_control_plane.Time.{offline_seconds}
use dsx_control_plane.Db.{Db, conversion_of}
use dsx_control_plane.Db.States.{ProvisioningState, same_sector}
use dsx_control_plane.Db.Rows.{Conversion, ProvisioningJob}
use dsx_control_plane.Http.{bearer_token, is_admin, read_json}
use dsx_control_plane.Http.Response.{Response, conversion as conversion_answer, conversion_placed}
use dsx_control_plane.Provisioning.Placement.{select_placement_node, capacity}
use dsx_control_plane.Provisioning.Protocol
use dsx_control_plane.Provisioning.Jobs.{tenant_count}
use dsx_control_plane.Conversions.Slug.{production_slug_for_conversion}
use dsx_control_plane.Conversions.Slugs.{
  production_slug_for_conversion-safe, parse_trial_conversion_approval_input-total,
}
use dsx_control_plane.Conversions.Inputs.{
  lower_text, TrialConversionApprovalInput, parse_trial_conversion_request_input,
  parse_trial_conversion_approval_input, parse_production_placement_input,
  production_execution_enabled,
}
use dsx_control_plane.Conversions.Requests.{
  convertible, blocking_conversion, add_conversion, check_conversion_input,
  parse_conversion_request, check_conversion, create_conversion, trial_tenant,
}
use dsx_control_plane.Conversions.Approval.{
  latest_template, approve, check_approval_body, check_approval,
  approve_clean_production_conversion,
}
use dsx_control_plane.Conversions.Placement.{
  is_placed_on, place_target, parse_placement, check_target, check_node, check_placement_input,
  check_placement, place_production,
}
use dsx_control_plane.Conversions.Approved.{
  IsApproved, approve_clean_production_conversion-IsApproved,
}
use dsx_control_plane.Conversions.Placed.{IsPlaced, place_production-IsPlaced}
use dsx_control_plane.Conversions.Replay.{create_conversion-again, place_production-again}
use dsx_control_plane.Conversions.Protocol.{Advances, IsSingle, provisions, creates, here, next}
use dsx_control_plane.Conversions.Protocol.Moves.{Step-Advances, Reach-IsSingle}
use dsx_control_plane.Tests.{env, parse, admin, offers, conversion_body, placement_body}

opened : Unit {0}
unfolding create_conversion check_conversion parse_conversion_request check_conversion_input
    trial_tenant convertible blocking_conversion add_conversion is_admin bearer_token read_json
    parse_trial_conversion_request_input approve_clean_production_conversion check_approval
    check_approval_body latest_template approve parse_trial_conversion_approval_input
    place_production check_placement check_placement_input check_target check_node parse_placement
    parse_production_placement_input production_execution_enabled place_target select_placement_node
    capacity offline_seconds parse same_sector
opened = tt

abbrev asked : Response × Db
asked = create_conversion env (admin conversion_body) (text "c1") (text "a1") 2000 offers

abbrev agreed : Response × Db
agreed =
    approve_clean_production_conversion env (admin end) (text "c1") (text "a1") (text "c9")
      (text "j9") 2001 asked.1

abbrev settled : Response × Db
settled = place_production env (admin placement_body) (text "c1") (text "a1") 2002 agreed.1

asked-created : asked.0.status ≡ 201
unfolding opened
asked-created = refl

agreed-created : agreed.0.status ≡ 201
unfolding opened
agreed-created = refl

settled-created : settled.0.status ≡ 201
unfolding opened is_placed_on tenant_count
settled-created = refl

-- The conversion and its job as the placement leaves them.
abbrev placed_pair : Db
placed_pair = settled.1

create_conversion-again_example :
    (c : Conversion) × (c.id ≡ text "a1")
    × (c.trial_tenant_id ≡ text "c1")
    × (create_conversion env (admin conversion_body) (text "c1") (text "a2") 3000 asked.1
        ≡ (record { status = 200; body = conversion_answer (some c) true }, asked.1))
create_conversion-again_example =
    create_conversion-again env (admin conversion_body) (text "c1") (text "a1") (text "a2") 2000
      3000 offers asked-created

approve_clean_production_conversion-IsApproved_example :
    ((agreed.0.status ≢ 201) × (agreed.1 ≡ asked.1))
    ⊎ ((agreed.0.status ≡ 201)
        × IsApproved (text "c1") (text "a1") (text "c9") (text "j9") 2001 asked.1 agreed.1)
approve_clean_production_conversion-IsApproved_example =
    approve_clean_production_conversion-IsApproved env (admin end) (text "c1") (text "a1")
      (text "c9") (text "j9") 2001 asked.1

place_production-IsPlaced_example :
    ((settled.0.status ≢ 201) × (settled.1 ≡ agreed.1))
    ⊎ ((settled.0.status ≡ 201)
        × IsPlaced env (admin placement_body) (text "c1") (text "a1") 2002 agreed.1 settled.1)
place_production-IsPlaced_example =
    place_production-IsPlaced env (admin placement_body) (text "c1") (text "a1") 2002 agreed.1

place_production-again_example :
    (c : Conversion) × (j : ProvisioningJob) × (conversion_of settled.1 (text "a1") ≡ some c)
    × (j.state ≡ ProvisioningState.placed)
    × (place_production env (admin placement_body) (text "c1") (text "a1") 4000 settled.1 ≡ (
      record { status = 200; body = conversion_placed (some c) (some j) true none },
      settled.1,
    ))
place_production-again_example =
    place_production-again env (admin placement_body) (text "c1") (text "a1") 2002 4000 agreed.1
      settled-created

Step-Advances_example :
    Advances (conversion_of offers (text "a1")) (conversion_of asked.1 (text "a1"))
Step-Advances_example =
    Step-Advances env offers asked.1 (creates (admin conversion_body) (text "c1") (text "a1") 2000)
      (text "a1")

offers-IsSingle : IsSingle offers
unfolding count_where
offers-IsSingle trial = omega arith

Reach-IsSingle_example : IsSingle placed_pair
Reach-IsSingle_example =
    Reach-IsSingle env offers placed_pair
      (next
        (next (next here (creates (admin conversion_body) (text "c1") (text "a1") 2000)) (
          provisions
            (Protocol.approves (admin end) (text "c1") (text "a1") (text "c9") (text "j9") 2001)))
        (provisions (Protocol.places (admin placement_body) (text "c1") (text "a1") 2002)))
      offers-IsSingle

production_slug_for_conversion-safe_example :
    (length (production_slug_for_conversion (text "my-cafe") (text "a1")) ≤ 64)
    × (safe_slug (production_slug_for_conversion (text "my-cafe") (text "a1")) ≡ true)
production_slug_for_conversion-safe_example =
    production_slug_for_conversion-safe (text "my-cafe") (text "a1")

no_slug : lower_text (get end (text "production_slug")) ≡ []
unfolding get lower_text
no_slug = refl

parse_trial_conversion_approval_input-total_example :
    (a : TrialConversionApprovalInput) × (parse_trial_conversion_approval_input end
        (text "Cafe")
        (text "my-cafe")
        (text "a1")
      ≡ ok a)
    × (a.production_slug ≡ production_slug_for_conversion (text "my-cafe") (text "a1"))
    × (is_empty a.production_name ≡ false)
    × (length a.production_name ≤ 120)
parse_trial_conversion_approval_input-total_example =
    parse_trial_conversion_approval_input-total end (text "Cafe") (text "my-cafe") (text "a1")
      no_slug
