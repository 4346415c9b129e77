-- ===== src/Provisioning/Protocol/Converting.antt =====
-- The three requests of deploy/cloudflare/src/trialConversion.ts and productionPlacement.ts on a
-- conversion move each job along `TRANSITIONS`.
use mathlib.Core.Path.{subst}
use mathlib.Core.Option.{some-injective}
use dsx_control_plane.Base.{Result-cases, ℕ, ◌≡◌, inl, inr, some, arith, Option-cases}
use dsx_control_plane.Text.{Text}
use dsx_control_plane.Table.{row}
use dsx_control_plane.Db.{Db}
use dsx_control_plane.Db.Rows.{Conversion}
use dsx_control_plane.Http.{Env, Request}
use dsx_control_plane.Conversions.Requests.{
  check_conversion, new_conversion, insert_conversion, add_conversion, create_conversion,
}
use dsx_control_plane.Conversions.Approval.{
  check_approval, approve, approve_clean_production_conversion,
}
use dsx_control_plane.Conversions.Placement.{check_placement, place_production}
use dsx_control_plane.Provisioning.Protocol.Batches.{
  MovesAt, Moves-refl, approve-Moves, place_target-Moves,
}

module _ (i : Text) where
  add_conversion-Moves :
      (c : Conversion) (now : ℕ) (db db' : Db)
      → add_conversion c now db ≡ some db'
      → MovesAt i db db'
  unfolding add_conversion
  add_conversion-Moves c now db db' h =
      elim (Option-cases (insert_conversion c db.trial_conversion_requests)) [
        | inl e ↦ absurd (ground arith)
        | inr (cs, e) ↦
            subst (MovesAt i db) (some-injective _ _ (rw (add_conversion, e) at h)) (Moves-refl _ _)
      ]

  pub create_conversion-Moves :
      (env : Env) (r : Request) (trial id : Text) (now : ℕ) (db : Db)
      → MovesAt i db (create_conversion env r trial id now db).1
  unfolding create_conversion row
  create_conversion-Moves env r trial id now db =
      elim (Result-cases (check_conversion env r trial db)) [
        | inl (e, h) ↦ rw (create_conversion, h) (Moves-refl _ _)
        | inr (input, h) ↦
            let c = new_conversion input id trial now in
            elim (Option-cases (add_conversion c now db)) [
              | inl k ↦ rw (create_conversion, h, k) (Moves-refl _ _)
              | inr (db', k) ↦ rw (create_conversion, h, k) (add_conversion-Moves c now db db' k)
            ]
      ]

  pub approve_clean_production_conversion-Moves :
      (env : Env) (r : Request) (trial conversion target job : Text) (now : ℕ) (db : Db)
      → MovesAt i db
          (approve_clean_production_conversion env r trial conversion target job now db).1
  unfolding approve_clean_production_conversion row
  approve_clean_production_conversion-Moves env r trial conversion target job now db =
      elim (Result-cases (check_approval env r trial conversion db)) [
        | inl (e, h) ↦ rw (approve_clean_production_conversion, h) (Moves-refl _ _)
        | inr (a, h) ↦ elim (Option-cases (approve a target job now db)) [
          | inl k ↦ rw (approve_clean_production_conversion, h, k) (Moves-refl _ _)
          | inr (db', k) ↦
              rw (approve_clean_production_conversion, h, k)
                (approve-Moves i a target job now db db' k)
        ]
      ]

  pub place_production-Moves :
      (env : Env) (r : Request) (trial conversion : Text) (now : ℕ) (db : Db)
      → MovesAt i db (place_production env r trial conversion now db).1
  unfolding place_production row
  place_production-Moves env r trial conversion now db =
      elim (Result-cases (check_placement env r trial conversion now db)) [
        | inl (e, h) ↦ rw (place_production, h) (Moves-refl _ _)
        | inr (p, h) ↦ rw (place_production, h) (place_target-Moves i p now db)
      ]
