-- ===== src/Conversions/Protocol/Rows.antt =====
-- Counting the requests in use through an insert and an update, and what each batch does to one.
use dsx_control_plane.Base.{
  ℕ, ◌+◌, ◌≤◌, ◌≡◌, refl, inl, inr, Bool, true, Option, none, some, List, [], ◌∷◌, ◌++◌, arith,
  Bool-cases, Option-cases, if◌then◌else◌,
}
use dsx_control_plane.Base.Lists.{count_where, find}
use dsx_control_plane.Text.{Text, ◌==◌, ==_iff}
use dsx_control_plane.Table.{row, update, row-update}
use dsx_control_plane.Db.{Db, conversion_of}
use dsx_control_plane.Db.States.{ConversionState, requested}
use dsx_control_plane.Db.Rows.{Conversion, ProvisioningJob}
use dsx_control_plane.Provisioning.Effects.{set_row}
use dsx_control_plane.Conversions.Requests.{blocks, insert_conversion, add_conversion}
use dsx_control_plane.Conversions.Approval.{Approval, approve, is_requested, approved_conversion}
use dsx_control_plane.Conversions.Placement.{
  ProductionPlacement, place_target, is_approved, started_conversion,
}
use dsx_control_plane.Conversions.Reconcile.{
  is_open_for, conversion_state_for, reconciled_conversion, write_conversion, admits,
}
use dsx_control_plane.Conversions.Effects.{
  conversion-add_conversion, conversion-approve, conversion-place_target,
}
use dsx_control_plane.Conversions.Protocol.{may_become, Advances, IsSingle}

module _ {ℓ} {A : Type ℓ} (p : A → Bool) where
  count_where-append :
      (xs : List A) (x : A)
      → count_where p (xs ++ x ∷ []) ≡ count_where p xs + (if p x then 1 else 0)
  unfolding count_where
  count_where-append [] x = ground arith
  count_where-append (y ∷ xs) x = ground (arith, count_where-append xs x)

  count_where-none : (xs : List A) → find p xs ≡ none → count_where p xs ≡ 0
  unfolding count_where find
  count_where-none [] h = refl
  count_where-none (x ∷ xs) h = ground (arith, count_where-none xs)

  -- An update that puts no new row under the test.
  count_where-update :
      (key : A → Text) (k : Text) (cond : A → Bool) (f : A → A) (xs : List A)
      → ((x : A) → cond x ≡ true → p (f x) ≡ true → p x ≡ true)
      → count_where p (update key k cond f xs) ≤ count_where p xs
  unfolding count_where update
  count_where-update key k cond f [] keeps = omega arith
  count_where-update key k cond f (x ∷ xs) keeps =
      ground (arith, count_where-update key k cond f xs keeps, keeps x)

pub add_conversion-IsSingle :
    (c : Conversion) (now : ℕ) (db db' : Db)
    → add_conversion c now db ≡ some db'
    → IsSingle db
    → IsSingle db'
unfolding add_conversion insert_conversion blocks
add_conversion-IsSingle c now db db' h single trial = ground (
  arith,
  single trial,
  ==_iff c.trial_tenant_id trial,
  count_where-append (blocks trial) db.trial_conversion_requests c,
  count_where-none (blocks trial) db.trial_conversion_requests,
)

module _ (trial : Text) (c : Conversion) where
  blocks-approved_conversion :
      (target_id : Text) (now : ℕ)
      → is_requested c ≡ true
      → blocks trial (approved_conversion target_id now c) ≡ true
      → blocks trial c ≡ true
  unfolding blocks is_requested
  blocks-approved_conversion target_id now h k = ground arith

  blocks-started_conversion :
      (now : ℕ)
      → is_approved c ≡ true
      → blocks trial (started_conversion now c) ≡ true
      → blocks trial c ≡ true
  unfolding blocks is_approved
  blocks-started_conversion now h k = ground arith

  blocks-reconciled_conversion :
      (target : Option Text) (j : ProvisioningJob) (s : ConversionState) (now : ℕ)
      → is_open_for target c ≡ true
      → blocks trial (reconciled_conversion j s now c) ≡ true
      → blocks trial c ≡ true
  unfolding blocks is_open_for
  blocks-reconciled_conversion target j s now h k = ground arith

pub approve-IsSingle :
    (a : Approval) (target_id job_id : Text) (now : ℕ) (db db' : Db)
    → approve a target_id job_id now db ≡ some db'
    → IsSingle db
    → IsSingle db'
unfolding approve
approve-IsSingle a target_id job_id now db db' h single trial =
    let fewer =
      count_where-update (blocks trial) (λ c. c.id) a.request.id is_requested
        (approved_conversion target_id now) db.trial_conversion_requests
        (λ c. blocks-approved_conversion trial c target_id now) in
    ground (arith, single trial, fewer)

pub place_target-IsSingle :
    (p : ProductionPlacement) (now : ℕ) (db : Db) → IsSingle db → IsSingle (place_target p now db)
unfolding place_target
place_target-IsSingle p now db single trial = omega (
  arith,
  single trial,
  count_where-update (blocks trial) (λ c. c.id) p.request.id is_approved (started_conversion now)
      db.trial_conversion_requests (λ c. blocks-started_conversion trial c now),
)

pub write_conversion-IsSingle :
    (j : ProvisioningJob) (c : Conversion) (s : ConversionState) (now : ℕ) (db : Db)
    → IsSingle db
    → IsSingle (write_conversion j c s now db).1
unfolding write_conversion
write_conversion-IsSingle j c s now db single trial = ground (
  arith,
  single trial,
  count_where-update (blocks trial) (λ x. x.id) c.id (is_open_for c.target_tenant_id)
      (reconciled_conversion j s now) db.trial_conversion_requests
      (λ x. blocks-reconciled_conversion trial x c.target_tenant_id j s now),
)

abbrev pub AdvancesAt : Text → Db → Db → Type 0
AdvancesAt i db db' = Advances (conversion_of db i) (conversion_of db' i)

pub Advances-refl : (c : Option Conversion) → Advances c c
unfolding may_become
Advances-refl none = tt
Advances-refl (some c) = (ground arith, refl, refl, refl, inr refl)

Advances-when :
    (cond : Conversion → Bool) (f : Conversion → Conversion) (k i : Text)
    → ((c : Conversion) → cond c ≡ true → Advances (some c) (some (f c)))
    → (o : Option Conversion) → Advances o (set_row k i cond f o)
Advances-when cond f k i each none = elim (Bool-cases (k == i)) [
  | inl e ↦ rw e tt
  | inr e ↦ rw e tt
]
Advances-when cond f k i each (some c) = elim (Bool-cases (k == i)) [
  | inl e ↦ elim (Bool-cases (cond c)) [
    | inl t ↦ rw (e, t) (each c t)
    | inr t ↦ rw (e, t) (Advances-refl (some c))
  ]
  | inr e ↦ rw e (Advances-refl (some c))
]

reconciled_conversion-Advances :
    (j : ProvisioningJob) (target : Option Text) (s : ConversionState) (now : ℕ) (c : Conversion)
    → conversion_state_for j.state ≡ some s
    → is_open_for target c ≡ true
    → Advances (some c) (some (reconciled_conversion j s now c))
unfolding may_become is_open_for conversion_state_for
reconciled_conversion-Advances j target s now c known under = ground arith

module _ (i : Text) where
  pub add_conversion-Advances :
      (c : Conversion) (now : ℕ) (db db' : Db)
      → c.state ≡ requested
      → add_conversion c now db ≡ some db'
      → AdvancesAt i db db'
  add_conversion-Advances c now db db' s h =
      let (free, after) = conversion-add_conversion i c now db db' h in
      elim (Option-cases (conversion_of db i)) [
        | inl e ↦ rw (after, e) (elim (Bool-cases (c.id == i)) [ inl t ↦ rw t s | inr t ↦ rw t tt ])
        | inr (x, e) ↦ rw (after, e) (Advances-refl (some x))
      ]

  pub approve-Advances :
      (a : Approval) (target_id job_id : Text) (now : ℕ) (db db' : Db)
      → approve a target_id job_id now db ≡ some db'
      → AdvancesAt i db db'
  unfolding may_become is_requested
  approve-Advances a target_id job_id now db db' h =
      rw (conversion-approve i a target_id job_id now db db' h) (
        Advances-when is_requested (approved_conversion target_id now) a.request.id i
          (λ c t. ground arith) (conversion_of db i))

  pub place_target-Advances :
      (p : ProductionPlacement) (now : ℕ) (db : Db) → AdvancesAt i db (place_target p now db)
  unfolding may_become is_approved
  place_target-Advances p now db = rw (conversion-place_target i p now db) (
      Advances-when is_approved (started_conversion now) p.request.id i (λ c t. ground arith)
        (conversion_of db i))

  pub write_conversion-Advances :
      (j : ProvisioningJob) (c : Conversion) (s : ConversionState) (now : ℕ) (db : Db)
      → conversion_state_for j.state ≡ some s
      → AdvancesAt i db (write_conversion j c s now db).1
  unfolding write_conversion row
  write_conversion-Advances j c s now db known =
      elim (Bool-cases (admits (is_open_for c.target_tenant_id) (conversion_of db c.id))) [
        | inl t ↦
            rw
              (
                write_conversion,
                t,
                row-update (λ x. x.id) (is_open_for c.target_tenant_id)
                    (reconciled_conversion j s now) (λ x. refl) i c.id db.trial_conversion_requests,
              )
              (Advances-when (is_open_for c.target_tenant_id) (reconciled_conversion j s now) c.id i
                (λ x under. reconciled_conversion-Advances j c.target_tenant_id s now x known under)
                (conversion_of db i))
        | inr t ↦ rw (write_conversion, t) (Advances-refl (conversion_of db i))
      ]
