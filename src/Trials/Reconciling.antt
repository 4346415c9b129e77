-- ===== src/Trials/Reconciling.antt =====
-- What a run of `reconcileExpiredTrials` of deploy/cloudflare/src/trialExpiration.ts does to the
-- row of each tenant.
pub mod Expiring
pub mod Pending
use mathlib.Core.List.{Memᴰ}
use mathlib.Core.Path.{subst}
use dsx_control_plane.Base.{
  ℕ, ◌+◌, ◌≤◌, ◌≡◌, refl, sym, ◌⊎◌, inl, inr, Bool, true, false, ◌&&◌, Option, none, some, List, [],
  ◌∷◌, arith, Option-cases, Bool-cases,
}
use dsx_control_plane.Base.Lists.{length, select}
use dsx_control_plane.Text.{Text, ◌==◌, ==_iff, ==_refl}
use dsx_control_plane.Table.{row, row-update, key-row}
use dsx_control_plane.Table.Order.{sort}
use dsx_control_plane.Table.Members.{
  Memᴰ-select, Memᴰ-of-select, Memᴰ-of-take, take-all, Memᴰ-row, Memᴰ-sort, Memᴰ-of-sort,
  length-sort,
}
use dsx_control_plane.Db.{Db, tenant_of}
use dsx_control_plane.Db.States.{TenantStatus, TrialState}
use dsx_control_plane.Db.Rows.{Tenant, ProvisioningJob}
use dsx_control_plane.Provisioning.Effects.{set_row}
use dsx_control_plane.Cleanup.Jobs.{Cleanable, cleanup_of_tenant, non_empty, last_ready_job}
use dsx_control_plane.Trials.Expiration.{
  batch_size, is_expired, set_pending, bump, marks, cleanable, is_trial_due, is_running_trial,
  expired_tenant, mark_trial_expired, is_expired_trial, pending_tenant, is_selected,
  expires_earlier, due_trials, awaiting_cleanup, expire_trials, queue_cleanups, Queued, queued,
  passed, thrown, queue_expired_trial_cleanup, queue_for_tenant, queue_on_node, queue_trial_cleanup,
  reconcile_expired_trials,
}
use dsx_control_plane.Trials.Reconciling.Expiring.{
  at_tenant, Marks, expire_trials-Marks, expire_trials-ends,
}
use dsx_control_plane.Trials.Reconciling.Pending.{Pends, queue_cleanups-Pends}

-- What a run may do to one tenant: nothing; suspend a trial that is due, and go on to its clean-up;
-- or go on to the clean-up of a trial that an earlier run suspended.
pub data Expires (now : ℕ) : Option Tenant → Option Tenant → Type 0 where
  stays : (o : Option Tenant) → Expires now o o
  expires :
      (t : Tenant)
      → is_selected now t ≡ true
      → Expires now (some t) (
          some (record t {
            status = TenantStatus.suspended;
            trial_state = some TrialState.expired;
            trial_expired_at = some now;
            updated_at = now;
          }))
  expires_on :
      (t : Tenant)
      → is_selected now t ≡ true
      → Expires now (some t) (
          some (record t {
            status = TenantStatus.suspended;
            trial_state = some TrialState.cleanup_pending;
            trial_expired_at = some now;
            updated_at = now;
          }))
  goes_on :
      (t : Tenant)
      → is_expired_trial t ≡ true
      → Expires now
          (some t)
          (some (record t { trial_state = some TrialState.cleanup_pending; updated_at = now }))

-- Each tenant is the one that its id finds, as the primary key says.
abbrev pub IsKeyed : Db → Type 0
IsKeyed db = (t : Tenant) → Memᴰ t db.tenants → tenant_of db t.id ≡ some t

module _ (now : ℕ) (i : Text) where
  -- The two loops together.
  both_loops : (a b c : Option Tenant) → Marks now a b → Pends now b c → Expires now a c
  unfolding is_expired_trial
  both_loops a b c (inl e) (inl f) =
      let back : c ≡ a = ground arith in subst (Expires now a) (sym back) (stays a)
  both_loops a b c (inl e) (inr (t, f, fit, g)) =
      let back : a ≡ some t = ground arith in
      subst (λ x. Expires now x c) (sym back) (subst (Expires now (some t)) (sym g) (goes_on t fit))
  both_loops a b c (inr (t, e, fit, g)) (inl f) =
      let back : c ≡ some (expired_tenant now t) = ground arith in
      subst (λ x. Expires now x c) (sym e) (subst (Expires now (some t)) (sym back) (expires t fit))
  both_loops a b c (inr (t, e, fit, g)) (inr (u, f, _, h)) =
      let back : c ≡ some (pending_tenant now (expired_tenant now t)) = ground arith in
      subst (λ x. Expires now x c) (sym e)
        (subst (Expires now (some t)) (sym back) (expires_on t fit))

due_trials-keyed :
    (now : ℕ) (i : Text) (db : Db)
    → IsKeyed db
    → (t : Tenant) → Memᴰ t (due_trials now db)
    → t.id ≡ i
    → tenant_of db i ≡ some t
unfolding due_trials
due_trials-keyed now i db keyed t m own =
    let listed = Memᴰ-of-select (is_selected now) t db.tenants (
      Memᴰ-of-sort expires_earlier t (select (is_selected now) db.tenants) (
        Memᴰ-of-take batch_size t (sort expires_earlier (select (is_selected now) db.tenants))
          m)) in
    subst (λ k. tenant_of db k ≡ some t) own (keyed t listed)

-- A run leaves each tenant as it was, but for two kinds of trials: one that was ready, active and
-- due may be suspended as expired, and an expired one may go on to its clean-up.
pub reconcile_expired_trials-Expires :
    (ids : Text → Text) (now : ℕ) (db : Db)
    → IsKeyed db
    → (i : Text)
    → Expires now (tenant_of db i) (tenant_of (reconcile_expired_trials ids now db).after i)
unfolding reconcile_expired_trials row
reconcile_expired_trials-Expires ids now db keyed i =
    let mid = (expire_trials (due_trials now db) now 0 db).1 in
    both_loops now i (tenant_of db i) (tenant_of mid i)
      (tenant_of (reconcile_expired_trials ids now db).after i)
      (expire_trials-Marks now i (tenant_of db i) (due_trials now db) 0 db
        (due_trials-keyed now i db keyed) (inl refl))
      (queue_cleanups-Pends now i ids (awaiting_cleanup mid) 0 mid)

due_trials-all :
    (now : ℕ) (db : Db) (t : Tenant)
    → length (select (is_selected now) db.tenants) ≤ batch_size
    → Memᴰ t db.tenants
    → is_selected now t ≡ true
    → Memᴰ t (due_trials now db)
unfolding due_trials
due_trials-all now db t few m fit =
    let chosen = select (is_selected now) db.tenants in
    subst (Memᴰ t)
      (sym (
        take-all batch_size (sort expires_earlier chosen)
          (omega (arith, few, length-sort expires_earlier chosen))))
      (Memᴰ-sort expires_earlier t chosen (Memᴰ-select (is_selected now) t db.tenants fit m))

Pends-no_due :
    (now : ℕ) (b c : Option Tenant)
    → Pends now b c
    → at_tenant is_running_trial b ≡ false
    → at_tenant (is_selected now) c ≡ false
unfolding is_running_trial is_selected is_expired_trial
Pends-no_due now b c (inl e) h = ground arith
Pends-no_due now b c (inr (t, e, fit, g)) h = ground arith

selected_due : (now : ℕ) (t : Tenant) → is_selected now t ≡ true → is_trial_due t now ≡ true
unfolding is_selected is_trial_due is_running_trial
selected_due now t h = ground arith

no_more_due :
    (now : ℕ) (a b : Option Tenant)
    → Expires now a b
    → at_tenant (is_selected now) a ≡ false
    → at_tenant (is_selected now) b ≡ false
unfolding is_selected is_running_trial is_expired_trial
no_more_due now a b (stays o) h = h
no_more_due now a b (expires t fit) h = ground arith
no_more_due now a b (expires_on t fit) h = ground arith
no_more_due now a b (goes_on t fit) h = ground arith

-- Where at most fifty trials are due, a run leaves no trial that is due.
pub reconcile_expired_trials_complete :
    (ids : Text → Text) (now : ℕ) (db : Db)
    → IsKeyed db
    → length (select (is_selected now) db.tenants) ≤ batch_size
    → (i : Text)
    → at_tenant (is_selected now) (tenant_of (reconcile_expired_trials ids now db).after i) ≡ false
unfolding reconcile_expired_trials row
reconcile_expired_trials_complete ids now db keyed few i =
    let mid = (expire_trials (due_trials now db) now 0 db).1 in
    elim (Bool-cases (at_tenant (is_selected now) (tenant_of db i))) [
      | inr not_due ↦
          no_more_due now (tenant_of db i) (tenant_of (reconcile_expired_trials ids now db).after i)
            (reconcile_expired_trials-Expires ids now db keyed i) not_due
      | inl is_due ↦ elim (Option-cases (tenant_of db i)) [
        | inl e ↦ absurd (ground arith)
        | inr (t, e) ↦
            let fit : is_selected now t ≡ true = ground arith in
            let listed = due_trials-all now db t few (Memᴰ-row (λ x. x.id) i db.tenants e) fit in
            let over =
              expire_trials-ends now i (due_trials now db) 0 db t listed
                (key-row (λ x. x.id) i db.tenants {r = t} e) (selected_due now t fit) in
            Pends-no_due now (tenant_of mid i)
              (tenant_of (reconcile_expired_trials ids now db).after i)
              (queue_cleanups-Pends now i ids (awaiting_cleanup mid) 0 mid) over
      ]
    ]
