-- ===== src/Table.antt =====
-- Tables of the D1 database as lists of rows, each with a key column. `SELECT ... WHERE key = ?` is
-- `row`, `UPDATE ... WHERE key = ? AND cond` is `update`, `DELETE ... WHERE key = ?` is `delete`,
-- and an `INSERT` appends. Table/Order has the queries with `ORDER BY`.
pub mod Order
pub mod Members
use mathlib.Core.Option
use dsx_control_plane.Base.{
  ◌≡◌, refl, Bool, true, Option, none, some, List, [], ◌∷◌, ◌++◌, arith, if◌then◌else◌, inl, inr,
  Bool-cases,
}
use dsx_control_plane.Base.Lists.{find}
use dsx_control_plane.Text.{Text, ◌==◌, ==_iff}

abbrev pub or_row {ℓ} : {Row : Type ℓ} → Option Row → Option Row → Option Row
or_row none o = o
or_row (some r) o = some r

-- The columns that an `UPDATE` writes, on the rows that its condition admits.
abbrev pub when {ℓ} : {Row : Type ℓ} → (Row → Bool) → (Row → Row) → Row → Row
when cond f r = if cond r then f r else r

abbrev pub always {ℓ} : {Row : Type ℓ} → Row → Bool
always r = true

module _ {ℓ} {Row : Type ℓ} (key : Row → Text) where
  unfoldable pub row : Text → List Row → Option Row
  row k [] = none
  row k (r ∷ rs) = if key r == k then some r else row k rs

  unfoldable pub update : Text → (Row → Bool) → (Row → Row) → List Row → List Row
  update k cond f [] = []
  update k cond f (r ∷ rs) = (if key r == k then when cond f r else r) ∷ update k cond f rs

  unfoldable pub delete : Text → List Row → List Row
  delete k [] = []
  delete k (r ∷ rs) = let rest = delete k rs in if key r == k then rest else r ∷ rest

  pub row-append :
      (k : Text) (rs : List Row) (r : Row)
      → row k (rs ++ r ∷ []) ≡ or_row (row k rs) (if key r == k then some r else none)
  unfolding row
  row-append k [] r = refl
  row-append k (x ∷ rs) r = ground (arith, row-append k rs r)

  pub row-delete :
      (i k : Text) (rs : List Row) → row i (delete k rs) ≡ (if k == i then none else row i rs)
  unfolding row delete
  row-delete i k [] = ground arith
  row-delete i k (r ∷ rs) =
      ground (arith, row-delete i k rs, ==_iff (key r) k, ==_iff (key r) i, ==_iff k i)

  -- The key of the row that is found.
  pub key-row : (k : Text) (rs : List Row) {r : Row} → row k rs ≡ some r → key r ≡ k
  unfolding row
  key-row k [] h = cc
  key-row k (x ∷ rs) {r} h = ground (arith, key-row k rs {r = r}, ==_iff (key x) k)

  module _ (cond : Row → Bool) (f : Row → Row) (keeps : (r : Row) → key (f r) ≡ key r) where
    pub row-update :
        (i k : Text) (rs : List Row)
        → row i (update k cond f rs)
          ≡ (if k == i then Option.map (when cond f) (row i rs) else row i rs)
    unfolding row update
    row-update i k [] = ground arith
    row-update i k (r ∷ rs) =
        ground (arith, row-update i k rs, ==_iff (key r) k, ==_iff (key r) i, ==_iff k i, keeps r)

    -- The first row that passes a test which the update leaves alone.
    pub find-update :
        (p : Row → Bool)
        → ((r : Row) → p (f r) ≡ p r)
        → (k : Text) (rs : List Row) {r : Row} → find p rs ≡ some r
        → key r ≡ k
        → find p (update k cond f rs) ≡ some (when cond f r)
    unfolding update find
    find-update p same k [] found e = absurd (ground arith)
    find-update p same k (x ∷ rs) {r} found e = elim (Bool-cases (p x)) [
      | inl t ↦ ground (arith, same x, ==_iff (key x) k)
      | inr t ↦ ground (arith, same x, find-update p same k rs {r = r})
    ]
