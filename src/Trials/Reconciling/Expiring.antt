-- ===== src/Trials/Reconciling/Expiring.antt =====
-- The first loop of `reconcileExpiredTrials` of deploy/cloudflare/src/trialExpiration.ts.
use mathlib.Core.List.{Memᴰ}
use mathlib.Core.Path.{subst}
use dsx_control_plane.Base.{
  ℕ, ◌≡◌, refl, sym, ◌⊎◌, inl, inr, Bool, true, false, ◌&&◌, Option, none, some, List, [], ◌∷◌,
  arith, Bool-cases,
}
use dsx_control_plane.Text.{Text, ◌==◌, ==_iff, ==_refl}
use dsx_control_plane.Table.{row-update}
use dsx_control_plane.Db.{Db, tenant_of}
use dsx_control_plane.Db.Rows.{Tenant}
use dsx_control_plane.Provisioning.Effects.{set_row}
use dsx_control_plane.Trials.Expiration.{
  bump, marks, is_trial_due, is_running_trial, expired_tenant, mark_trial_expired, is_selected,
  expire_trials,
}

abbrev pub at_tenant : (Tenant → Bool) → Option Tenant → Bool
at_tenant p none = false
at_tenant p (some t) = p t

-- What the first loop does to a row.
abbrev pub Marks : ℕ → Option Tenant → Option Tenant → Type 0
Marks now o o' =
    (o' ≡ o)
    ⊎ ((t : Tenant) × (o ≡ some t)
        × (is_selected now t ≡ true)
        × (o' ≡ some (expired_tenant now t)))

module _ (now : ℕ) (i : Text) where
  tenant-mark_trial_expired :
      (k : Text) (db : Db)
      → tenant_of (mark_trial_expired k now db) i
        ≡ set_row k i is_running_trial (expired_tenant now) (tenant_of db i)
  unfolding mark_trial_expired
  tenant-mark_trial_expired k db = ground (
    arith,
    row-update (λ t. t.id) is_running_trial (expired_tenant now) (λ t. refl) i k db.tenants,
    ==_iff k i,
  )

  -- A trial that does not run stays so.
  marks_keep :
      (k : Text) (db : Db)
      → at_tenant is_running_trial (tenant_of db i) ≡ false
      → tenant_of (mark_trial_expired k now db) i ≡ tenant_of db i
  marks_keep k db h = ground (arith, tenant-mark_trial_expired k db)

  marks_end :
      (db : Db) → at_tenant is_running_trial (tenant_of (mark_trial_expired i now db) i) ≡ false
  unfolding is_running_trial
  marks_end db = ground (arith, tenant-mark_trial_expired i db, ==_refl i)

  mark-Marks :
      (o : Option Tenant) (t : Tenant) (db : Db)
      → (t.id ≡ i → o ≡ some t)
      → is_trial_due t now ≡ true
      → Marks now o (tenant_of db i)
      → Marks now o (tenant_of (mark_trial_expired t.id now db) i)
  unfolding is_running_trial is_trial_due is_selected
  mark-Marks o t db own fit (inl e) = elim (Bool-cases (t.id == i)) [
    | inl same ↦ elim (Bool-cases (is_running_trial t)) [
      | inl runs ↦ inr (
        t,
        ground (arith, ==_iff t.id i),
        ground arith,
        ground (arith, tenant-mark_trial_expired t.id db, ==_iff t.id i),
      )
      | inr over ↦ inl (ground (arith, tenant-mark_trial_expired t.id db, ==_iff t.id i))
    ]
    | inr other ↦ inl (ground (arith, tenant-mark_trial_expired t.id db))
  ]
  mark-Marks o t db own fit (inr (u, f, x, g)) =
      inr (u, f, x, ground (arith, tenant-mark_trial_expired t.id db))

  -- One round of the loop, for a count `m`.
  round_due :
      (t : Tenant) (ts : List Tenant) (n : ℕ) (db : Db)
      → is_trial_due t now ≡ true
      → (m : ℕ) × ((expire_trials (t ∷ ts) now n db).1
          ≡ (expire_trials ts now m (mark_trial_expired t.id now db)).1)
  unfolding expire_trials
  round_due t ts n db fit =
      (bump (is_trial_due t now && marks t.id db) n, rw (expire_trials, fit) refl)

  round_passed :
      (t : Tenant) (ts : List Tenant) (n : ℕ) (db : Db)
      → is_trial_due t now ≡ false
      → (m : ℕ) × ((expire_trials (t ∷ ts) now n db).1 ≡ (expire_trials ts now m db).1)
  unfolding expire_trials
  round_passed t ts n db fit =
      (bump (is_trial_due t now && marks t.id db) n, rw (expire_trials, fit) refl)

  pub expire_trials-Marks :
      (o : Option Tenant) (ts : List Tenant) (n : ℕ) (db : Db)
      → ((t : Tenant) → Memᴰ t ts → t.id ≡ i → o ≡ some t)
      → Marks now o (tenant_of db i)
      → Marks now o (tenant_of (expire_trials ts now n db).1 i)
  unfolding expire_trials
  expire_trials-Marks o [] n db own m = m
  expire_trials-Marks o (t ∷ ts) n db own m = elim (Bool-cases (is_trial_due t now)) [
    | inl fit ↦
        let (count, e) = round_due t ts n db fit in
        subst (λ x. Marks now o (tenant_of x i)) (sym e)
          (expire_trials-Marks o ts count (mark_trial_expired t.id now db)
            (λ u w. own u (Memᴰ.tail w)) (mark-Marks o t db (own t (Memᴰ.head refl)) fit m))
    | inr not_yet ↦
        let (count, e) = round_passed t ts n db not_yet in
        subst (λ x. Marks now o (tenant_of x i)) (sym e)
          (expire_trials-Marks o ts count db (λ u w. own u (Memᴰ.tail w)) m)
  ]

  abbrev IsOver : Db → Type 0
  IsOver db = at_tenant is_running_trial (tenant_of db i) ≡ false

  expire_trials-IsOver :
      (ts : List Tenant) (n : ℕ) (db : Db) → IsOver db → IsOver (expire_trials ts now n db).1
  unfolding expire_trials
  expire_trials-IsOver [] n db h = h
  expire_trials-IsOver (t ∷ ts) n db h = elim (Bool-cases (is_trial_due t now)) [
    | inl fit ↦
        let (count, e) = round_due t ts n db fit in
        subst IsOver (sym e) (
          expire_trials-IsOver ts count (mark_trial_expired t.id now db)
            (subst (λ x. at_tenant is_running_trial x ≡ false) (sym (marks_keep t.id db h)) h))
    | inr not_yet ↦
        let (count, e) = round_passed t ts n db not_yet in
        subst IsOver (sym e) (expire_trials-IsOver ts count db h)
  ]

  pub expire_trials-ends :
      (ts : List Tenant) (n : ℕ) (db : Db) (t : Tenant)
      → Memᴰ t ts
      → t.id ≡ i
      → is_trial_due t now ≡ true
      → IsOver (expire_trials ts now n db).1
  expire_trials-ends [] n db t m own fit = absurd (elim m [ ])
  expire_trials-ends (u ∷ ts) n db t (Memᴰ.head e) own fit =
      let (count, f) = round_due u ts n db (subst (λ x. is_trial_due x now ≡ true) e fit) in
      let same : u.id ≡ i = subst (λ x. x.id ≡ i) e own in
      subst IsOver (sym f) (
        expire_trials-IsOver ts count (mark_trial_expired u.id now db)
          (subst (λ k. IsOver (mark_trial_expired k now db)) (sym same) (marks_end db)))
  expire_trials-ends (u ∷ ts) n db t (Memᴰ.tail m) own fit =
      elim (Bool-cases (is_trial_due u now)) [
        | inl d ↦
            let (count, f) = round_due u ts n db d in
            subst IsOver (sym f)
              (expire_trials-ends ts count (mark_trial_expired u.id now db) t m own fit)
        | inr d ↦
            let (count, f) = round_passed u ts n db d in
            subst IsOver (sym f) (expire_trials-ends ts count db t m own fit)
      ]
