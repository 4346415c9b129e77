-- ===== src/Tests/Placement.antt =====
-- Placement, leases and database names on concrete inputs.
use mathlib.Core.List.{Memᴰ}
use dsx_control_plane.Base.{ℕ, ◌≡◌, ◌↔◌, refl, true, none, some, List, [], ◌∷◌, ◌++◌, arith}
use dsx_control_plane.Text.{Text, text}
use dsx_control_plane.Text.Patterns.{safe_database}
use dsx_control_plane.Time.{offline_seconds}
use dsx_control_plane.Db.States.{same_sector}
use dsx_control_plane.Http.{authenticate_node, bearer_token, is_admin, is_live, read_json}
use dsx_control_plane.Provisioning.Jobs.{
  create_provisioning_job, check_job_request, check_job_input, parse_job_request, place_job,
  is_provisionable, placement_candidates, requirements,
}
use dsx_control_plane.Provisioning.Inputs.{parse_provisioning_job_input}
use dsx_control_plane.Provisioning.Placement.{PlacementCandidate, select_placement_node, capacity}
use dsx_control_plane.Provisioning.Placement.Choice.{
  IsBest, IsEligible, select_placement_node-IsBest, select_placement_node-none,
}
use dsx_control_plane.Provisioning.Retry.{check_retry, retry_provisioning_job}
use dsx_control_plane.Provisioning.Results.{parse_operation_result}
use dsx_control_plane.Provisioning.DatabaseName.{safe_slug_part, expected_database_name}
use dsx_control_plane.Provisioning.Operations.Report.{
  check_report, report_operation_result, apply_report,
}
use dsx_control_plane.Provisioning.Names.{
  safe_prefix, expected_database_name-safe, expected_database_name-collision,
}
use dsx_control_plane.Tests.{parse, node, template}

opened : Unit {0}
unfolding create_provisioning_job check_job_request check_job_input parse_job_request is_admin
    bearer_token read_json parse_provisioning_job_input select_placement_node capacity place_job
    is_provisionable placement_candidates same_sector offline_seconds parse check_retry
    retry_provisioning_job is_live check_report report_operation_result parse_operation_result
    apply_report authenticate_node
opened = tt

expected_database_name-safe_example :
    safe_database (expected_database_name (text "dsx_cafe") (text "my-cafe") (text "c1")) ≡ true
expected_database_name-safe_example =
    expected_database_name-safe (text "dsx_cafe") (text "my-cafe") (text "c1")
      (unfold safe_prefix in refl)

abbrev candidate : Text → ℕ → PlacementCandidate
candidate id count = record { node = record node { id = id }; tenant_count = count }

abbrev candidates : List PlacementCandidate
candidates = candidate (text "a") 3 ∷ candidate (text "b") 1 ∷ candidate (text "c") 5 ∷ []

chosen :
    select_placement_node parse
      (requirements template (text "non-production"))
      2000
      (some 300)
      candidates
    ≡ some (candidate (text "b") 1)
unfolding opened
chosen = refl

select_placement_node-IsBest_example :
    IsBest parse
      (requirements template (text "non-production"))
      2000
      (some 300)
      candidates
      (candidate (text "b") 1)
select_placement_node-IsBest_example =
    select_placement_node-IsBest parse (requirements template (text "non-production")) 2000
      (some 300) candidates (candidate (text "b") 1) chosen

select_placement_node-none_example :
    (select_placement_node parse
        (requirements template (text "non-production"))
        400000
        (some 300)
        candidates
      ≡ none)
    ↔ ((c : PlacementCandidate)
        → Memᴰ c candidates
        → ¬ (IsEligible parse (requirements template (text "non-production")) 400000 (some 300) c))
select_placement_node-none_example =
    select_placement_node-none parse (requirements template (text "non-production")) 400000
      (some 300) candidates

abbrev long : Text
long = text "aaaaaaaaaabbbbbbbbbbccccccccccddddddddddeeeeeeeeeeffff"

expected_database_name-collision_example :
    expected_database_name (text "dsx_cafe") (long ++ text "-one") (text "1a")
    ≡ expected_database_name (text "dsx_cafe") (long ++ text "-two") (text "2b")
expected_database_name-collision_example =
    expected_database_name-collision (text "dsx_cafe") (long ++ text "-one") (long ++ text "-two")
      (text "1a") (text "2b") long (text "_one") (text "_two") (unfold safe_slug_part in refl)
      (unfold safe_slug_part in refl) (omega arith)
