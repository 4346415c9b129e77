-- ===== src/Conversions/Effects.antt =====
-- What the batches of deploy/cloudflare/src/trialConversion.ts and productionPlacement.ts leave in
-- the rows of one job and of one conversion.
use dsx_control_plane.Base.{ℕ, ◌≡◌, refl, none, some, arith, if◌then◌else◌}
use dsx_control_plane.Text.{Text, ◌==◌}
use dsx_control_plane.Table.{or_row, row-append, row-update}
use dsx_control_plane.Db.{Db, job_of, lease_of, conversion_of}
use dsx_control_plane.Db.Rows.{Conversion}
use dsx_control_plane.Provisioning.Effects.{set_row}
use dsx_control_plane.Conversions.Requests.{add_conversion, insert_conversion}
use dsx_control_plane.Conversions.Approval.{
  Approval, queued_job, approve, is_requested, approved_conversion,
}
use dsx_control_plane.Conversions.Placement.{
  ProductionPlacement, place_target, is_placeable, placed_job, is_approved, started_conversion,
}

module _ (i : Text) where
  pub conversion-add_conversion :
      (c : Conversion) (now : ℕ) (db db' : Db)
      → add_conversion c now db ≡ some db'
      → (conversion_of db c.id ≡ none)
        × (conversion_of db' i ≡ or_row (conversion_of db i) (if c.id == i then some c else none))
  unfolding add_conversion insert_conversion
  conversion-add_conversion c now db db' h =
      (ground arith, ground (arith, row-append (λ x. x.id) i db.trial_conversion_requests c))

  module _ (a : Approval) (target_id job_id : Text) (now : ℕ) (db db' : Db)
      (h : approve a target_id job_id now db ≡ some db') where
    pub lease-approve : lease_of db' i ≡ lease_of db i
    unfolding approve
    lease-approve = ground (arith, h)

    pub job-approve :
        (job_of db job_id ≡ none)
        × (job_of db' i
            ≡ or_row
                (job_of db i)
                (if job_id == i then some (queued_job a target_id job_id now) else none))
    unfolding approve
    job-approve = (
      ground (arith, h),
      ground (
        arith,
        h,
        row-append (λ x. x.id) i db.provisioning_jobs (queued_job a target_id job_id now),
      ),
    )

    pub conversion-approve :
        conversion_of db' i
        ≡ set_row a.request.id i is_requested
            (approved_conversion target_id now)
            (conversion_of db i)
    unfolding approve
    conversion-approve = ground (
      arith,
      h,
      row-update (λ x. x.id) is_requested (approved_conversion target_id now) (λ x. refl) i
          a.request.id db.trial_conversion_requests,
    )

  module _ (p : ProductionPlacement) (now : ℕ) (db : Db) where
    pub lease-place_target : lease_of (place_target p now db) i ≡ lease_of db i
    unfolding place_target
    lease-place_target = refl

    pub job-place_target :
        job_of (place_target p now db) i
        ≡ set_row p.job.id i is_placeable (placed_job p.node_id now) (job_of db i)
    unfolding place_target
    job-place_target =
        row-update (λ x. x.id) is_placeable (placed_job p.node_id now) (λ x. refl) i p.job.id
          db.provisioning_jobs

    pub conversion-place_target :
        conversion_of (place_target p now db) i
        ≡ set_row p.request.id i is_approved (started_conversion now) (conversion_of db i)
    unfolding place_target
    conversion-place_target =
        row-update (λ x. x.id) is_approved (started_conversion now) (λ x. refl) i p.request.id
          db.trial_conversion_requests
