-- ===== src/Table/Order.antt =====
-- `ORDER BY column` and `Array.sort` as a stable insertion sort, and what stands first in it.
use dsx_control_plane.Base.{
  ◌≡◌, refl, sym, ap, ◌∙◌, inl, inr, Bool, true, false, List, [], ◌∷◌, if◌then◌else◌, Option, none,
  some, arith, Option-cases, Bool-cases,
}
use mathlib.Core.List.{Memᴰ}
use mathlib.Core.Path.{subst}
use mathlib.Core.Option.{some-injective}

abbrev pub first {ℓ} : {A : Type ℓ} → List A → Option A
first [] = none
first (x ∷ xs) = some x

module _ {ℓ} {A : Type ℓ} (before : A → A → Bool) where
  unfoldable pub insert : A → List A → List A
  insert x [] = x ∷ []
  insert x (y ∷ ys) = let rest = insert x ys in if before y x then y ∷ rest else x ∷ y ∷ ys

  unfoldable pub sort : List A → List A
  unfolding insert
  sort [] = []
  sort (x ∷ xs) = insert x (sort xs)

-- A comparator that orders strictly, up to rows that it does not tell apart.
pub record IsWeakOrder {ℓ} {A : Type ℓ} (before : A → A → Bool) : Type ℓ where
  pub asymm : (x y : A) → before x y ≡ true → before y x ≡ false
  pub negative : (x y z : A) → before z y ≡ false → before y x ≡ false → before z x ≡ false

-- `x` is listed, and nothing listed comes before it.
pub record IsLeast {ℓ} {A : Type ℓ} (before : A → A → Bool) (xs : List A) (x : A) : Type ℓ where
  pub listed : Memᴰ x xs
  pub least : (z : A) → Memᴰ z xs → before z x ≡ false

module _ {ℓ} {A : Type ℓ} (before : A → A → Bool) (w : IsWeakOrder before) where
  irrefl : (x : A) → before x x ≡ false
  irrefl x = elim (Bool-cases (before x x)) [ inl t ↦ w.asymm x x t | inr f ↦ f ]

  first-insert :
      (x : A) (ys : List A)
      → first (insert before x ys)
        ≡ elim (first ys) [ none ↦ some x | some h ↦ some (if before h x then h else x) ]
  unfolding insert
  first-insert x [] = refl
  first-insert x (y ∷ ys) = ground arith

  IsLeast-cons :
      (x : A) (xs : List A) (h : A)
      → IsLeast before xs h
      → IsLeast before (x ∷ xs) (if before h x then h else x)
  IsLeast-cons x xs h i = elim (Bool-cases (before h x)) [
    | inl t ↦ rw t (record { listed = Memᴰ.tail i.listed; least = keep t })
    | inr f ↦ rw f (record { listed = Memᴰ.head refl; least = change f })
  ]
    where
      keep : before h x ≡ true → (z : A) → Memᴰ z (x ∷ xs) → before z h ≡ false
      keep t z (Memᴰ.head e) = rw e (w.asymm h x t)
      keep t z (Memᴰ.tail m) = i.least z m

      change : before h x ≡ false → (z : A) → Memᴰ z (x ∷ xs) → before z x ≡ false
      change f z (Memᴰ.head e) = rw e (irrefl x)
      change f z (Memᴰ.tail m) = w.negative x h z (i.least z m) f

  only : (x : A) → IsLeast before (x ∷ []) x
  only x = record { listed = Memᴰ.head refl; least = alone }
    where
      alone : (z : A) → Memᴰ z (x ∷ []) → before z x ≡ false
      alone z (Memᴰ.head e) = rw e (irrefl x)
      alone z (Memᴰ.tail m) = absurd (elim m [ ])

  abbrev merged : A → Option A → Option A
  merged x none = some x
  merged x (some h) = some (if before h x then h else x)

  first-sort-cons :
      (x : A) (xs : List A) → first (sort before (x ∷ xs)) ≡ merged x (first (sort before xs))
  unfolding sort
  first-sort-cons x xs = ground (arith, first-insert x (sort before xs))

  sort-nonempty : (x : A) (xs : List A) → first (sort before (x ∷ xs)) ≡ none → ⊥
  sort-nonempty x xs h = ground (arith, first-sort-cons x xs)

  -- The first row of the sorted list is a least one.
  pub first-sort-IsLeast :
      (xs : List A) (h : A) → first (sort before xs) ≡ some h → IsLeast before xs h
  unfolding sort
  first-sort-IsLeast [] h e = cc
  first-sort-IsLeast (x ∷ []) h e =
      subst (IsLeast before (x ∷ [])) (some-injective _ _ (unfold insert in e)) (only x)
  first-sort-IsLeast (x ∷ y ∷ xs) h e = elim (Option-cases (first (sort before (y ∷ xs)))) [
    | inl n ↦ absurd (sort-nonempty y xs n)
    | inr (k, f) ↦
        subst (IsLeast before (x ∷ y ∷ xs))
          (some-injective _ _ (sym (ap (merged x) f) ∙ sym (first-sort-cons x (y ∷ xs)) ∙ e))
          (IsLeast-cons x (y ∷ xs) k (first-sort-IsLeast (y ∷ xs) k f))
  ]

  -- A list with a row in it has a first row when sorted.
  pub first-sort-ne-none : (xs : List A) (x : A) → Memᴰ x xs → first (sort before xs) ≡ none → ⊥
  first-sort-ne-none [] x m h = absurd (elim m [ ])
  first-sort-ne-none (y ∷ xs) x m h = sort-nonempty y xs h
