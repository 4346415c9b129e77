-- ===== src/Conversions/Mirror.antt =====
-- What a round of deploy/cloudflare/src/trialConversionReconcile.ts makes of a conversion that is
-- under way, for each state of its job.
use dsx_control_plane.Base.{
  ℕ, ◌≡◌, ◌≢◌, ◌⊎◌, ◌∙◌, refl, sym, inl, inr, true, false, none, some, arith, Option-cases,
  Bool-cases,
}
use mathlib.Core.Path.{subst}
use dsx_control_plane.Text.{Text, ==_iff}
use dsx_control_plane.Table.{row-update}
use dsx_control_plane.Db.{Db, conversion_of}
use dsx_control_plane.Db.States.{ConversionState, ProvisioningState, same_conversion}
use dsx_control_plane.Db.Rows.{ProvisioningJob, Conversion}
use dsx_control_plane.Conversions.Reconcile.{
  conversion_state_for, is_under_way, is_open_for, reconciled_conversion, write_conversion,
  reconcile_trial_conversion,
}
use dsx_control_plane.Conversions.Agreement.{IsPair, reconcile-pair, reconcile-writes, written}

-- Between its placement and its end.
abbrev pub IsWorking : ProvisioningState → Type 0
IsWorking ProvisioningState.placed = Unit
IsWorking ProvisioningState.dispatched = Unit
IsWorking ProvisioningState.running = Unit
IsWorking ProvisioningState.retrying = Unit
IsWorking _ = ⊥

-- The conversion `c`, whose job is `j`, and what becomes of it.
pub record Mirrors (j : ProvisioningJob) (now : ℕ) (c c' : Conversion) : Type 0 where
  pub queued : j.state ≡ ProvisioningState.queued → c' ≡ c
  pub working : IsWorking j.state → c'.state ≡ ConversionState.provisioning
  pub working_still : IsWorking j.state → c.state ≡ ConversionState.provisioning → c' ≡ c
  pub ready :
      j.state ≡ ProvisioningState.ready
      → (c'.state ≡ ConversionState.ready)
        × (c'.error_code ≡ none)
        × ((t : ℕ) → j.finished_at ≡ some t → c'.finished_at ≡ some t)
        × (j.finished_at ≡ none → c'.finished_at ≡ some now)
  pub failed :
      j.state ≡ ProvisioningState.failed
      → (c'.state ≡ ConversionState.failed)
        × (c'.error_code ≢ none)
        × ((t : ℕ) → j.finished_at ≡ some t → c'.finished_at ≡ some t)
        × (j.finished_at ≡ none → c'.finished_at ≡ some now)
  pub began : (t : ℕ) → c.started_at ≡ some t → c'.started_at ≡ some t
  pub begins :
      c'.state ≢ c.state
      → c.started_at ≡ none
      → ((t : ℕ) → j.started_at ≡ some t → c'.started_at ≡ some t)
        × (j.started_at ≡ none → c'.started_at ≡ some now)
  pub touched : c'.state ≢ c.state → c'.updated_at ≡ now
  pub trial : c'.trial_tenant_id ≡ c.trial_tenant_id
  pub target : c'.target_tenant_id ≡ c.target_tenant_id

-- All but the conversions and the audit events, and all but one conversion, are as before.
pub record IsFramed (id : Text) (db after : Db) : Type 0 where
  pub jobs : after.provisioning_jobs ≡ db.provisioning_jobs
  pub tenants : after.tenants ≡ db.tenants
  pub others : (i : Text) → i ≢ id → conversion_of after i ≡ conversion_of db i

IsFramed-refl : (id : Text) (db : Db) → IsFramed id db db
IsFramed-refl id db = record { jobs = refl; tenants = refl; others = λ i other. refl }

write_conversion-IsFramed :
    (j : ProvisioningJob) (c : Conversion) (s : ConversionState) (now : ℕ) (db : Db)
    → IsFramed c.id db (write_conversion j c s now db).1
unfolding write_conversion
write_conversion-IsFramed j c s now db = record {
  jobs = ground arith;
  tenants = ground arith;
  others = λ i other. ground (
    arith,
    row-update (λ x. x.id) (is_open_for c.target_tenant_id) (reconciled_conversion j s now)
        (λ x. refl) i c.id db.trial_conversion_requests,
    ==_iff c.id i,
  );
}

under_way :
    (c : Conversion)
    → (c.state ≡ ConversionState.approved) ⊎ (c.state ≡ ConversionState.provisioning)
    → is_under_way c.state ≡ true
unfolding is_under_way
under_way c (inl h) = ground arith
under_way c (inr h) = ground arith

kept-Mirrors :
    (j : ProvisioningJob) (now : ℕ) (c : Conversion)
    → is_under_way c.state ≡ true
    → conversion_state_for j.state ≡ none
    → Mirrors j now c c
unfolding conversion_state_for
kept-Mirrors j now c busy e = record {
  queued = λ q. refl;
  working = λ w. absurd (ground arith);
  working_still = λ w p. refl;
  ready = λ r. absurd (ground arith);
  failed = λ f. absurd (ground arith);
  began = λ t h. h;
  begins = λ other. absurd (other refl);
  touched = λ other. absurd (other refl);
  trial = refl;
  target = refl;
}

same-Mirrors :
    (j : ProvisioningJob) (now : ℕ) (c : Conversion) (s : ConversionState)
    → is_under_way c.state ≡ true
    → conversion_state_for j.state ≡ some s
    → same_conversion c.state s ≡ true
    → Mirrors j now c c
unfolding conversion_state_for is_under_way same_conversion
same-Mirrors j now c s busy e same = record {
  queued = λ q. refl;
  working = λ w. ground arith;
  working_still = λ w p. refl;
  ready = λ r. absurd (ground arith);
  failed = λ f. absurd (ground arith);
  began = λ t h. h;
  begins = λ other. absurd (other refl);
  touched = λ other. absurd (other refl);
  trial = refl;
  target = refl;
}

written-Mirrors :
    (j : ProvisioningJob) (now : ℕ) (c : Conversion) (s : ConversionState)
    → conversion_state_for j.state ≡ some s
    → same_conversion c.state s ≡ false
    → Mirrors j now c (reconciled_conversion j s now c)
unfolding conversion_state_for same_conversion
written-Mirrors j now c s e differs = record {
  queued = λ q. absurd (ground arith);
  working = λ w. ground arith;
  working_still = λ w p. absurd (ground arith);
  ready = λ r. (ground arith, ground arith, λ t h. ground arith, λ h. ground arith);
  failed = λ f. (ground arith, λ h. ground arith, λ t h. ground arith, λ h. ground arith);
  began = λ t h. ground arith;
  begins = λ other h. (λ t e. ground arith, λ e. ground arith);
  touched = λ other. refl;
  trial = refl;
  target = refl;
}

-- The state of a job decides what a round makes of its conversion, if that is approved or
-- provisioning: queued leaves it alone; placed, dispatched, running and retrying leave it
-- provisioning, and untouched if it was; ready makes it ready with no error; failed makes it failed
-- with an error; at both ends it has ended when the job did, or now. When its state changes, it has
-- begun when it had, or else when the job did, or now, and it is marked as updated now. Its trial and
-- its target stay, and so do the jobs, the tenants and the other conversions.
pub reconcile_trial_conversion-Mirrors :
    (job_id : Text) (now : ℕ) (db : Db) (j : ProvisioningJob) (c : Conversion)
    → IsPair db job_id j c
    → (c.state ≡ ConversionState.approved) ⊎ (c.state ≡ ConversionState.provisioning)
    → (c' : Conversion) × (conversion_of (reconcile_trial_conversion job_id now db).1 c.id
        ≡ some c')
      × Mirrors j now c c'
      × IsFramed c.id db (reconcile_trial_conversion job_id now db).1
reconcile_trial_conversion-Mirrors job_id now db j c p under =
    elim (Option-cases (conversion_state_for j.state)) [
      | inl e ↦
          kept (kept-Mirrors j now c busy e)
            (reconcile-pair job_id now db j c p ∙ ground (arith, e))
      | inr (s, e) ↦ elim (Bool-cases (same_conversion c.state s)) [
        | inl t ↦
            kept (same-Mirrors j now c s busy e t)
              (reconcile-pair job_id now db j c p ∙ ground (arith, e, t))
        | inr f ↦
            let w = reconcile-writes job_id now db j c p s e busy f in
            (
              reconciled_conversion j s now c,
              subst (λ x. conversion_of x.1 c.id ≡ some (reconciled_conversion j s now c)) (sym w)
                  (written job_id now db j c p s e busy f),
              written-Mirrors j now c s e f,
              subst (λ x. IsFramed c.id db x.1) (sym w) (write_conversion-IsFramed j c s now db),
            )
      ]
    ]
  where
    busy : is_under_way c.state ≡ true
    busy = under_way c under

    kept :
        Mirrors j now c c
        → reconcile_trial_conversion job_id now db ≡ (false, db)
        → (c' : Conversion) × (conversion_of (reconcile_trial_conversion job_id now db).1 c.id
            ≡ some c')
          × Mirrors j now c c'
          × IsFramed c.id db (reconcile_trial_conversion job_id now db).1
    kept m w = (
      c,
      subst (λ x. conversion_of x.1 c.id ≡ some c) (sym w) p.keyed,
      m,
      subst (λ x. IsFramed c.id db x.1) (sym w) (IsFramed-refl c.id db),
    )
