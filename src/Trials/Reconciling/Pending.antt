-- ===== src/Trials/Reconciling/Pending.antt =====
-- The second loop of `reconcileExpiredTrials` of deploy/cloudflare/src/trialExpiration.ts.
use dsx_control_plane.Base.{
  ℕ, ◌+◌, ◌≡◌, refl, ◌⊎◌, inl, inr, true, Option, none, some, List, [], ◌∷◌, arith, Option-cases,
  Bool-cases,
}
use dsx_control_plane.Text.{Text, ◌==◌, ==_iff}
use dsx_control_plane.Table.{row, row-update, key-row}
use dsx_control_plane.Db.{Db, tenant_of}
use dsx_control_plane.Db.Rows.{Tenant, ProvisioningJob}
use dsx_control_plane.Provisioning.Effects.{set_row}
use dsx_control_plane.Cleanup.Jobs.{Cleanable, cleanup_of_tenant, non_empty, last_ready_job}
use dsx_control_plane.Trials.Expiration.{
  is_expired, set_pending, cleanable, is_expired_trial, pending_tenant, queue_cleanups, Queued,
  queued, passed, thrown, queue_expired_trial_cleanup, queue_for_tenant, queue_on_node,
  queue_trial_cleanup,
}

-- What the second loop does to a row.
abbrev pub Pends : ℕ → Option Tenant → Option Tenant → Type 0
Pends now o o' =
    (o' ≡ o)
    ⊎ ((t : Tenant) × (o ≡ some t)
        × (is_expired_trial t ≡ true)
        × (o' ≡ some (pending_tenant now t)))

Pends-trans : (now : ℕ) (a b c : Option Tenant) → Pends now a b → Pends now b c → Pends now a c
unfolding is_expired_trial
Pends-trans now a b c (inl e) (inl f) = inl (ground arith)
Pends-trans now a b c (inl e) (inr (t, f, x, g)) = inr (t, ground arith, x, g)
Pends-trans now a b c (inr (t, f, x, g)) (inl e) = inr (t, f, x, ground arith)
Pends-trans now a b c (inr (t, f, x, g)) (inr (u, h, y, k)) = absurd (ground arith)

Queued-cases : (q : Queued) → ((q ≡ passed) ⊎ (q ≡ thrown)) ⊎ ((db : Db) × (q ≡ queued db))
Queued-cases (queued db) = inr (db, refl)
Queued-cases passed = inl (inl refl)
Queued-cases thrown = inl (inr refl)

module _ (now : ℕ) (i : Text) where
  tenant-set_pending :
      (k : Text) (ts : List Tenant)
      → row (λ t. t.id) i (set_pending k now ts)
        ≡ set_row k i (λ t. is_expired t.trial_state) (pending_tenant now) (row (λ t. t.id) i ts)
  tenant-set_pending k ts =
      row-update (λ t. t.id) (λ t. is_expired t.trial_state) (pending_tenant now) (λ t. refl) i k ts

  tenant-queue_trial_cleanup :
      (c : Cleanable) (id : Text) (db db' : Db)
      → queue_trial_cleanup c id now db ≡ some db'
      → tenant_of db' i
        ≡ set_row c.tenant.id i
            (λ t. is_expired t.trial_state)
            (pending_tenant now)
            (tenant_of db i)
  unfolding queue_trial_cleanup
  tenant-queue_trial_cleanup c id db db' h =
      ground (arith, tenant-set_pending c.tenant.id db.tenants)

  queue_on_node-tenant :
      (t : Tenant) (node name : Text) (o : Option ProvisioningJob) (id : Text) (db db' : Db)
      → queue_on_node t node name o id now db ≡ queued db'
      → tenant_of db' i
        ≡ set_row t.id i (λ x. is_expired x.trial_state) (pending_tenant now) (tenant_of db i)
  unfolding queue_on_node
  queue_on_node-tenant t node name none id db db' h = absurd (ground arith)
  queue_on_node-tenant t node name (some p) id db db' h =
      elim (Option-cases (queue_trial_cleanup (cleanable t node name p) id now db)) [
        | inl e ↦ absurd (ground arith)
        | inr (x, e) ↦
            ground (arith, tenant-queue_trial_cleanup (cleanable t node name p) id db x e)
      ]

  queue_for_tenant-tenant :
      (t : Tenant) (id : Text) (db db' : Db)
      → queue_for_tenant t id now db ≡ queued db'
      → tenant_of db' i
        ≡ set_row t.id i (λ x. is_expired x.trial_state) (pending_tenant now) (tenant_of db i)
  unfolding queue_for_tenant
  queue_for_tenant-tenant t id db db' h = elim (Option-cases (non_empty t.assigned_node_id)) [
    | inl e ↦ absurd (ground arith)
    | inr (node, e) ↦ elim (Option-cases (non_empty t.database_name)) [
      | inl f ↦ absurd (ground arith)
      | inr (name, f) ↦ elim (Option-cases (cleanup_of_tenant db t.id)) [
        | inl g ↦ queue_on_node-tenant t node name (last_ready_job db t.id) id db db' (ground arith)
        | inr (j, g) ↦ ground (arith, tenant-set_pending t.id db.tenants)
      ]
    ]
  ]

  pended :
      (t : Tenant)
      → is_expired_trial t ≡ true
      → (o o' : Option Tenant)
      → o' ≡ set_row t.id i (λ x. is_expired x.trial_state) (pending_tenant now) o
      → (t.id == i) ≡ true
      → o ≡ some t
      → o' ≡ some (pending_tenant now t)
  unfolding is_expired_trial
  pended t held o o' e at_i f = ground arith

  queue_expired-Pends :
      (k id : Text) (db db' : Db)
      → queue_expired_trial_cleanup k id now db ≡ queued db'
      → Pends now (tenant_of db i) (tenant_of db' i)
  unfolding queue_expired_trial_cleanup row
  queue_expired-Pends k id db db' h = elim (Option-cases (tenant_of db k)) [
    | inl e ↦ absurd (ground arith)
    | inr (t, e) ↦ elim (Bool-cases (is_expired_trial t)) [
      | inr off ↦ absurd (ground arith)
      | inl held ↦
          let same = key-row (λ x. x.id) k db.tenants {r = t} e in
          let there =
            queue_for_tenant-tenant t id db db' (rw (queue_expired_trial_cleanup, e, held) at h) in
          elim (Bool-cases (t.id == i)) [
            | inl at_i ↦ inr (
              t,
              ground (arith, ==_iff t.id i),
              held,
              pended t held (tenant_of db i) (tenant_of db' i) there at_i
                  (ground (arith, ==_iff t.id i)),
            )
            | inr off ↦ inl (ground arith)
          ]
    ]
  ]

  pub queue_cleanups-Pends :
      (ids : Text → Text) (ts : List Tenant) (n : ℕ) (db : Db)
      → Pends now (tenant_of db i) (tenant_of (queue_cleanups ids ts now n db).1 i)
  unfolding queue_cleanups row
  queue_cleanups-Pends ids [] n db = inl refl
  queue_cleanups-Pends ids (t ∷ ts) n db =
      elim (Queued-cases (queue_expired_trial_cleanup t.id (ids t.id) now db)) [
        | inl (inl e) ↦ rw (queue_cleanups, e) (queue_cleanups-Pends ids ts n db)
        | inl (inr e) ↦ inl (rw (queue_cleanups, e) refl)
        | inr (after, e) ↦
            let rest = queue_cleanups-Pends ids ts (n + 1) after in
            rw (queue_cleanups, e)
              (Pends-trans now (tenant_of db i) (tenant_of after i)
                (tenant_of (queue_cleanups ids ts now (n + 1) after).1 i)
                (queue_expired-Pends t.id (ids t.id) db after e) rest)
      ]
