-- ===== src/Table/Members.antt =====
-- Which rows a query with a condition, an order and a limit returns.
use mathlib.Core.List.{Memᴰ}
use dsx_control_plane.Base.{
  ℕ, zero, suc, ◌≤◌, ◌≡◌, refl, sym, ◌⊎◌, inl, inr, Bool, true, some, List, [], ◌∷◌, arith,
  Bool-cases,
}
use dsx_control_plane.Base.Lists.{length, take, select}
use dsx_control_plane.Text.{Text, ◌==◌}
use dsx_control_plane.Table.{row}
use dsx_control_plane.Table.Order.{insert, sort}

module _ {ℓ} {A : Type ℓ} where
  Memᴰ-cases : (z y : A) (ys : List A) → Memᴰ z (y ∷ ys) → (z ≡ y) ⊎ Memᴰ z ys
  Memᴰ-cases z y ys (Memᴰ.head e) = inl e
  Memᴰ-cases z y ys (Memᴰ.tail m) = inr m

  Memᴰ-later :
      (z y : A) (xs ys : List A) → (Memᴰ z xs → Memᴰ z ys) → Memᴰ z (y ∷ xs) → Memᴰ z (y ∷ ys)
  Memᴰ-later z y xs ys f (Memᴰ.head e) = Memᴰ.head e
  Memᴰ-later z y xs ys f (Memᴰ.tail m) = Memᴰ.tail (f m)

  pub Memᴰ-select :
      (p : A → Bool) (x : A) (xs : List A) → p x ≡ true → Memᴰ x xs → Memᴰ x (select p xs)
  unfolding select
  Memᴰ-select p x [] h m = absurd (elim m [ ])
  Memᴰ-select p x (y ∷ ys) h (Memᴰ.head e) = rw (sym e, h) (Memᴰ.head refl)
  Memᴰ-select p x (y ∷ ys) h (Memᴰ.tail m) = elim (Bool-cases (p y)) [
    | inl t ↦ rw t (Memᴰ.tail (Memᴰ-select p x ys h m))
    | inr f ↦ rw f (Memᴰ-select p x ys h m)
  ]

  pub Memᴰ-of-select : (p : A → Bool) (x : A) (xs : List A) → Memᴰ x (select p xs) → Memᴰ x xs
  unfolding select
  Memᴰ-of-select p x [] m = m
  Memᴰ-of-select p x (y ∷ ys) m = elim (Bool-cases (p y)) [
    | inl t ↦ Memᴰ-later x y (select p ys) ys (Memᴰ-of-select p x ys) (rw (select, t) at m)
    | inr f ↦ Memᴰ.tail (Memᴰ-of-select p x ys (rw (select, f) at m))
  ]

  pub Memᴰ-of-take : (n : ℕ) (x : A) (xs : List A) → Memᴰ x (take n xs) → Memᴰ x xs
  Memᴰ-of-take zero x xs m = absurd (elim m [ ])
  Memᴰ-of-take (suc n) x [] m = absurd (elim m [ ])
  Memᴰ-of-take (suc n) x (y ∷ ys) (Memᴰ.head e) = Memᴰ.head e
  Memᴰ-of-take (suc n) x (y ∷ ys) (Memᴰ.tail m) = Memᴰ.tail (Memᴰ-of-take n x ys m)

  pub take-all : (n : ℕ) (xs : List A) → length xs ≤ n → take n xs ≡ xs
  take-all zero [] h = refl
  take-all zero (x ∷ xs) h = absurd (omega arith)
  take-all (suc n) [] h = refl
  take-all (suc n) (x ∷ xs) h = rw (take-all n xs (omega arith)) refl

  pub Memᴰ-row :
      (key : A → Text) (k : Text) (xs : List A) {x : A} → row key k xs ≡ some x → Memᴰ x xs
  unfolding row
  Memᴰ-row key k [] h = absurd (ground arith)
  Memᴰ-row key k (y ∷ ys) {x} h = elim (Bool-cases (key y == k)) [
    | inl t ↦ Memᴰ.head (ground arith)
    | inr f ↦ Memᴰ.tail (Memᴰ-row key k ys (rw (row, f) at h))
  ]

  module _ (before : A → A → Bool) where
    Memᴰ-insert-head : (x : A) (ys : List A) → Memᴰ x (insert before x ys)
    unfolding insert
    Memᴰ-insert-head x [] = Memᴰ.head refl
    Memᴰ-insert-head x (y ∷ ys) = elim (Bool-cases (before y x)) [
      | inl t ↦ rw t (Memᴰ.tail (Memᴰ-insert-head x ys))
      | inr f ↦ rw f (Memᴰ.head refl)
    ]

    Memᴰ-insert-tail : (x z : A) (ys : List A) → Memᴰ z ys → Memᴰ z (insert before x ys)
    unfolding insert
    Memᴰ-insert-tail x z [] m = absurd (elim m [ ])
    Memᴰ-insert-tail x z (y ∷ ys) m = elim (Bool-cases (before y x)) [
      | inl t ↦ rw t (Memᴰ-later z y ys (insert before x ys) (Memᴰ-insert-tail x z ys) m)
      | inr f ↦ rw f (Memᴰ.tail m)
    ]

    pub Memᴰ-sort : (z : A) (xs : List A) → Memᴰ z xs → Memᴰ z (sort before xs)
    unfolding sort
    Memᴰ-sort z [] m = m
    Memᴰ-sort z (x ∷ xs) (Memᴰ.head e) = rw e (Memᴰ-insert-head x (sort before xs))
    Memᴰ-sort z (x ∷ xs) (Memᴰ.tail m) = Memᴰ-insert-tail x z (sort before xs) (Memᴰ-sort z xs m)

    Memᴰ-of-insert : (x z : A) (ys : List A) → Memᴰ z (insert before x ys) → Memᴰ z (x ∷ ys)
    unfolding insert
    Memᴰ-of-insert x z [] m = m
    Memᴰ-of-insert x z (y ∷ ys) m = elim (Bool-cases (before y x)) [
      | inl t ↦ elim (Memᴰ-cases z y (insert before x ys) (rw (insert, t) at m)) [
        | inl e ↦ Memᴰ.tail (Memᴰ.head e)
        | inr n ↦ elim (Memᴰ-cases z x ys (Memᴰ-of-insert x z ys n)) [
          | inl e ↦ Memᴰ.head e
          | inr k ↦ Memᴰ.tail (Memᴰ.tail k)
        ]
      ]
      | inr f ↦ rw (insert, f) at m
    ]

    pub Memᴰ-of-sort : (z : A) (xs : List A) → Memᴰ z (sort before xs) → Memᴰ z xs
    unfolding sort
    Memᴰ-of-sort z [] m = m
    Memᴰ-of-sort z (x ∷ xs) m =
        Memᴰ-later z x (sort before xs) xs (Memᴰ-of-sort z xs)
          (Memᴰ-of-insert x z (sort before xs) m)

    length-insert : (x : A) (ys : List A) → length (insert before x ys) ≡ suc (length ys)
    unfolding insert
    length-insert x [] = refl
    length-insert x (y ∷ ys) = ground (arith, length-insert x ys)

    pub length-sort : (xs : List A) → length (sort before xs) ≡ length xs
    unfolding sort
    length-sort [] = refl
    length-sort (x ∷ xs) = ground (arith, length-sort xs, length-insert x (sort before xs))
