-- ===== src/Provisioning/Placement/Preference.antt =====
-- The preference that `selectPlacementNode` of deploy/cloudflare/src/provisioning.ts sorts by, in
-- inequalities.
use dsx_control_plane.Base.{
  ℕ, zero, suc, ◌*◌, ◌-◌, ◌≤◌, ◌<◌, ◌≡◌, ◌⊎◌, refl, sym, ap, ◌∙◌, inl, inr, Bool, false, true,
  Option, none, some, [], ◌∷◌, arith,
}
use mathlib.Core.Path.{subst}
use dsx_control_plane.Text.{Text}
use dsx_control_plane.Provisioning.Placement.{
  PlacementCandidate, Capacity, text_less, ratio_base, differ, ratio, less_disk, less_memory, by_id,
  before,
}

-- Bytes beyond the reserve, of a node whose reserve is there.
abbrev pub free_disk : Capacity → ℕ
free_disk a = a.disk_bytes - a.disk_reserved * 1073741824

abbrev pub free_memory : Capacity → ℕ
free_memory a = a.memory_bytes - a.memory_reserved * 1048576

-- The number of tenants that a share is taken of.
unfoldable pub limit : Option ℕ → ℕ
limit none = 10000
limit (some zero) = 10000
limit (some (suc m)) = suc m

-- The order of a dictionary.
abbrev pub Precedes : Text → Text → Type 0
Precedes [] [] = ⊥
Precedes [] (b ∷ t) = Unit {0}
Precedes (a ∷ s) [] = ⊥
Precedes (a ∷ s) (b ∷ t) = (a < b) ⊎ ((a ≡ b) × Precedes s t)

-- The tenants of two candidates, each times the limit of the other: the shares are in their order.
abbrev pub share : PlacementCandidate → PlacementCandidate → ℕ
share c d = c.tenant_count * limit d.max_tenants

-- `d`, with the capacity `b`, is not preferred to `c`, with the capacity `a`.
pub record IsPreferred (c : PlacementCandidate) (a : Capacity) (d : PlacementCandidate)
    (b : Capacity) : Type 0 where
  pub tenants : share c d ≤ share d c
  pub disk : share c d ≡ share d c → free_disk b ≤ free_disk a
  pub memory : share c d ≡ share d c → free_disk a ≡ free_disk b → free_memory b ≤ free_memory a
  pub id :
      share c d ≡ share d c
      → free_disk a ≡ free_disk b
      → free_memory a ≡ free_memory b
      → ¬ (Precedes d.id c.id)

-- The reserves are there.
abbrev pub Holds : Capacity → Type 0
Holds a =
    (a.disk_reserved * 1073741824 ≤ a.disk_bytes) × (a.memory_reserved * 1048576 ≤ a.memory_bytes)

limit-ratio_base : (o : Option ℕ) → ratio_base o ≡ limit o
unfolding limit
limit-ratio_base none = refl
limit-ratio_base (some zero) = refl
limit-ratio_base (some (suc m)) = ground arith

Precedes-text_less : (s t : Text) → Precedes s t → text_less s t ≡ true
unfolding text_less
Precedes-text_less [] [] h = absurd h
Precedes-text_less [] (b ∷ t) h = refl
Precedes-text_less (a ∷ s) [] h = absurd h
Precedes-text_less (a ∷ s) (b ∷ t) (inl h) = ground arith
Precedes-text_less (a ∷ s) (b ∷ t) (inr (e, h)) = ground (arith, Precedes-text_less s t h)

differ-eq-false :
    (m n : ℕ) (rest : Bool) → differ m n rest ≡ false → (n ≤ m) × (m ≡ n → rest ≡ false)
differ-eq-false m n rest h = (ground arith, λ e. ground arith)

share-ratio : (c d : PlacementCandidate) (a b : Capacity) → share c d ≡ ratio (c, a) (d, b)
share-ratio c d a b = ap (λ n. c.tenant_count * n) (sym (limit-ratio_base d.max_tenants))

pub before-IsPreferred :
    (c d : PlacementCandidate) (a b : Capacity)
    → Holds a
    → Holds b
    → before (d, b) (c, a) ≡ false
    → IsPreferred c a d b
unfolding before
before-IsPreferred c d a b (disk_a, memory_a) (disk_b, memory_b) h =
    let memories =
      differ (less_memory (d, b) (c, a)) (less_memory (c, a) (d, b)) (by_id (d, b) (c, a)) in
    let disks = differ (less_disk (d, b) (c, a)) (less_disk (c, a) (d, b)) memories in
    let (tenants, h1) = differ-eq-false (ratio (d, b) (c, a)) (ratio (c, a) (d, b)) disks h in
    let equal : share c d ≡ share d c → ratio (d, b) (c, a) ≡ ratio (c, a) (d, b) =
      λ e. sym (share-ratio d c b a) ∙ sym e ∙ share-ratio c d a b in
    let next = λ (e : share c d ≡ share d c).
      differ-eq-false (less_disk (d, b) (c, a)) (less_disk (c, a) (d, b)) memories (h1 (equal e)) in
    let disk_same : free_disk a ≡ free_disk b → less_disk (d, b) (c, a) ≡ less_disk (c, a) (d, b) =
      λ f. omega arith in
    let last = λ (e : share c d ≡ share d c) (f : free_disk a ≡ free_disk b).
      differ-eq-false (less_memory (d, b) (c, a)) (less_memory (c, a) (d, b)) (by_id (d, b) (c, a))
        ((next e).1 (disk_same f)) in
    let memory_same : free_memory a ≡ free_memory b
        → less_memory (d, b) (c, a) ≡ less_memory (c, a) (d, b) =
      λ f. omega arith in
    record {
      tenants =
          subst (λ n. n ≤ share d c) (sym (share-ratio c d a b))
            (subst (λ n. ratio (c, a) (d, b) ≤ n) (sym (share-ratio d c b a)) tenants);
      disk = λ e. let (less, _) = next e in omega (arith, less);
      memory = λ e f. let (less, _) = last e f in omega (arith, less);
      id = λ e f g p.
          let (_, refuses) = last e f in
          let yes = Precedes-text_less d.id c.id p in
          absurd (ground (arith, refuses (memory_same g), yes));
    }
