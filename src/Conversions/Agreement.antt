-- ===== src/Conversions/Agreement.antt =====
-- The reconciliation of deploy/cloudflare/src/trialConversionReconcile.ts: a conversion agrees with
-- its job after a round.
use dsx_control_plane.Base.{
  Bool, ℕ, ◌≡◌, ◌⊎◌, refl, sym, ap, ◌∙◌, inl, inr, true, false, Option, none, some, arith,
  Option-cases, Bool-cases,
}
use mathlib.Core.Path.{subst}
use dsx_control_plane.Text.{Text, ==_iff, ==_refl}
use dsx_control_plane.Table.{row, row-update, find-update}
use dsx_control_plane.Base.Lists.{find-eq-some}
use dsx_control_plane.Db.{Db, job_of, conversion_of}
use dsx_control_plane.Db.States.{ConversionState, same_conversion}
use dsx_control_plane.Db.Rows.{ProvisioningJob, Conversion}
use dsx_control_plane.Conversions.Reconcile.{
  conversion_state_for, is_linked, linked_conversion, is_under_way, is_open_for,
  reconciled_conversion, write_conversion, reconcile_to, reconcile_trial_conversion,
}
use dsx_control_plane.Conversions.Placement.{is_text}

-- A job and its conversion, as the join finds them.
pub record IsPair (db : Db) (job_id : Text) (j : ProvisioningJob) (c : Conversion) : Type 0 where
  pub job : job_of db job_id ≡ some j
  pub linked : linked_conversion db j ≡ some c
  pub keyed : conversion_of db c.id ≡ some c

is_text-eq : (o : Option Text) (s : Text) → is_text o s ≡ true → o ≡ some s
is_text-eq none s h = absurd (ground arith)
is_text-eq (some a) s h = ground (arith, ==_iff a s)

module _ (job_id : Text) (now : ℕ) (db : Db) (j : ProvisioningJob) (c : Conversion)
    (p : IsPair db job_id j c) where
  pub reconcile-pair :
      reconcile_trial_conversion job_id now db
      ≡ reconcile_to j c (conversion_state_for j.state) now db
  unfolding reconcile_trial_conversion row
  reconcile-pair = rw (reconcile_trial_conversion, p.job, p.linked) refl

  -- A conversion that is not under way (requested, ready, failed or cancelled) is left as it is,
  -- whatever the state of its job: one that has failed stays failed when the job, retried, becomes
  -- ready.
  pub reconcile_trial_conversion-idle :
      is_under_way c.state ≡ false → reconcile_trial_conversion job_id now db ≡ (false, db)
  reconcile_trial_conversion-idle idle = reconcile-pair ∙ ground (arith, idle)

  linked-target : c.target_tenant_id ≡ some j.tenant_id
  unfolding is_linked linked_conversion
  linked-target = ground (
    arith,
    find-eq-some (is_linked db j) db.trial_conversion_requests p.linked,
    is_text-eq c.target_tenant_id j.tenant_id,
  )

  module _ (s : ConversionState) (known : conversion_state_for j.state ≡ some s)
      (busy : is_under_way c.state ≡ true) (differs : same_conversion c.state s ≡ false) where
    pub reconcile-writes : reconcile_trial_conversion job_id now db ≡ write_conversion j c s now db
    reconcile-writes = reconcile-pair ∙ ground (arith, known, busy, differs)

    pub written :
        conversion_of (write_conversion j c s now db).1 c.id
        ≡ some (reconciled_conversion j s now c)
    unfolding write_conversion is_open_for
    written = ground (
      arith,
      p.keyed,
      busy,
      linked-target,
      ==_refl j.tenant_id,
      ==_refl c.id,
      row-update (λ x. x.id) (is_open_for c.target_tenant_id) (reconciled_conversion j s now)
          (λ x. refl) c.id c.id db.trial_conversion_requests,
    )

    linked-written :
        (job_of (write_conversion j c s now db).1 job_id ≡ some j)
        × (linked_conversion (write_conversion j c s now db).1 j
            ≡ some (reconciled_conversion j s now c))
    unfolding write_conversion is_open_for linked_conversion is_linked
    linked-written = (
      ground (arith, p.job),
      ground (
        arith,
        p.keyed,
        busy,
        linked-target,
        ==_refl j.tenant_id,
        find-update (λ x. x.id) (is_open_for c.target_tenant_id) (reconciled_conversion j s now)
            (λ x. refl) (is_linked db j) (λ x. refl) c.id db.trial_conversion_requests {r = c}
            p.linked refl,
      ),
    )

    written-IsPair :
        IsPair (write_conversion j c s now db).1 job_id j (reconciled_conversion j s now c)
    written-IsPair = record { job = linked-written.0; linked = linked-written.1; keyed = written }

    written-true : (write_conversion j c s now db).0 ≡ true
    unfolding write_conversion is_open_for
    written-true = ground (arith, p.keyed, busy, linked-target, ==_refl j.tenant_id)

  abbrev round : Bool × Db
  round = reconcile_trial_conversion job_id now db

  pub reconcile_trial_conversion-agrees :
      ((round ≡ (false, db))
        × ((is_under_way c.state ≡ false)
            ⊎ ((s : ConversionState) → conversion_state_for j.state ≡ some s → c.state ≡ s)))
      ⊎ ((is_under_way c.state ≡ true)
          × (round.0 ≡ true)
          × ((s : ConversionState) × (conversion_state_for j.state ≡ some s)
              × IsPair round.1 job_id j (reconciled_conversion j s now c)))
  unfolding same_conversion
  reconcile_trial_conversion-agrees = elim (Bool-cases (is_under_way c.state)) [
    | inr idle ↦ inl (reconcile_trial_conversion-idle idle, inl idle)
    | inl busy ↦ elim (Option-cases (conversion_state_for j.state)) [
      | inl e ↦ inl (reconcile-pair ∙ ground (arith, e), inr (λ s k. absurd (ground (arith, e))))
      | inr (s, e) ↦ elim (Bool-cases (same_conversion c.state s)) [
        | inl t ↦ inl (reconcile-pair ∙ ground (arith, e, t), inr (λ s' k. ground (arith, e, t)))
        | inr f ↦
            let w = reconcile-writes s e busy f in
            inr (
              busy,
              ap (λ x. x.0) w ∙ written-true s e busy f,
              (
                s,
                e,
                subst (λ x. IsPair x.1 job_id j (reconciled_conversion j s now c)) (sym w)
                    (written-IsPair s e busy f),
              ),
            )
      ]
    ]
  ]

same_conversion_refl : (s : ConversionState) → same_conversion s s ≡ true
unfolding same_conversion
same_conversion_refl s = ground arith

-- A second round for the same job, at any later time, changes nothing.
pub reconcile_trial_conversion-again :
    (job_id : Text) (now now' : ℕ) (db : Db) (j : ProvisioningJob) (c : Conversion)
    → IsPair db job_id j c
    → reconcile_trial_conversion job_id now' (reconcile_trial_conversion job_id now db).1
      ≡ (false, (reconcile_trial_conversion job_id now db).1)
reconcile_trial_conversion-again job_id now now' db j c p =
    elim (reconcile_trial_conversion-agrees job_id now db j c p) [
      | inr (busy, did, (s, known, q)) ↦
          reconcile-pair job_id now' _ j (reconciled_conversion j s now c) q
          ∙ ground (arith, known, same_conversion_refl s)
      | inl (same, inl idle) ↦ rw same (reconcile_trial_conversion-idle job_id now' db j c p idle)
      | inl (same, inr agrees) ↦ rw same (settled agrees)
    ]
  where
    settled :
        ((s : ConversionState) → conversion_state_for j.state ≡ some s → c.state ≡ s)
        → reconcile_trial_conversion job_id now' db ≡ (false, db)
    settled agrees = elim (Option-cases (conversion_state_for j.state)) [
      | inl e ↦ reconcile-pair job_id now' db j c p ∙ ground (arith, e)
      | inr (s, e) ↦
          reconcile-pair job_id now' db j c p
          ∙ ground (arith, e, agrees s e, same_conversion_refl s)
    ]
