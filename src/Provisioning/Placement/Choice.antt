-- ===== src/Provisioning/Placement/Choice.antt =====
-- What `selectPlacementNode` chooses: an eligible candidate to which no other is preferred, and none
-- only where none is eligible.
use mathlib.Core.List.{Memᴰ}
use mathlib.Core.Path.{subst}
use mathlib.Core.Option.{some-injective}
use dsx_control_plane.Base.{
  ℕ, ◌+◌, ◌*◌, ◌≤◌, ◌<◌, ◌≡◌, ◌↔◌, ◌∙◌, sym, inl, inr, refl, false, Option, none, some, List, [],
  ◌∷◌, arith, Option-cases,
}
use dsx_control_plane.Text.{Text, ==_iff}
use dsx_control_plane.Json.{Json}
use dsx_control_plane.Time.{Stamp, at, not_a_date}
use dsx_control_plane.Table.Order.{first, sort, first-sort-IsLeast, first-sort-ne-none}
use dsx_control_plane.Db.States.{active}
use dsx_control_plane.Provisioning.Placement.{
  PlacementCandidate, PlacementRequirements, Capacity, Scored, mib, gib, before, capacity, score,
  scores, select_placement_node,
}
use dsx_control_plane.Provisioning.Placement.Order.{before-IsWeakOrder}
use dsx_control_plane.Provisioning.Placement.Preference.{IsPreferred, Holds, before-IsPreferred}

-- The node reported within the offline window; a window that is not a number excludes nothing.
abbrev pub SeenSince : Option Stamp → ℕ → Option ℕ → Type 0
SeenSince none now offline = ⊥
SeenSince (some not_a_date) now offline = ⊥
SeenSince (some (at seen)) now none = Unit {0}
SeenSince (some (at seen)) now (some seconds) = now ≤ seen + seconds * 1000

abbrev pub HasRoom : Option ℕ → ℕ → Type 0
HasRoom none count = Unit {0}
HasRoom (some m) count = count < m

module _ (parse : Text → Option Json) (r : PlacementRequirements) (now : ℕ)
    (offline : Option ℕ) where
  abbrev pub Fits : Option Capacity → Type 0
  Fits none = ⊥
  Fits (some a) =
      ((r.min_memory_mb + a.memory_reserved) * mib ≤ a.memory_bytes)
      × ((r.min_disk_gb + a.disk_reserved) * gib ≤ a.disk_bytes)

  pub record IsEligible (c : PlacementCandidate) : Type 0 where
    pub live : c.lifecycle_state ≡ active
    pub role : c.role ≡ r.required_role
    pub pool : c.pool ≡ r.pool
    pub seen : SeenSince c.last_seen_at now offline
    pub room : HasRoom c.max_tenants c.tenant_count
    pub fits : Fits (capacity parse c.node)

  score-IsEligible :
      (c : PlacementCandidate) (s : Scored)
      → score parse r now offline c ≡ some s
      → (s.0 ≡ c) × (capacity parse c.node ≡ some s.1) × IsEligible c
  unfolding score
  score-IsEligible c s h = (
    ground arith,
    ground arith,
    ground (arith, ==_iff c.role r.required_role, ==_iff c.pool r.pool),
  )

  score-eq-none : (c : PlacementCandidate) → score parse r now offline c ≡ none → ¬ (IsEligible c)
  unfolding score
  score-eq-none c h e = ground (arith, ==_iff c.role r.required_role, ==_iff c.pool r.pool)

  scores-mem :
      (cs : List PlacementCandidate) (s : Scored)
      → Memᴰ s (scores parse r now offline cs)
      → (c : PlacementCandidate) × Memᴰ c cs × (score parse r now offline c ≡ some s)
  unfolding scores
  scores-mem [] s m = elim m [ ]
  scores-mem (c ∷ cs) s m = elim (Option-cases (score parse r now offline c)) [
    | inl e ↦ let (d, n, h) = scores-mem cs s (rw (e, scores) at m) in (d, Memᴰ.tail n, h)
    | inr (a, e) ↦ first_or_rest a e (rw (e, scores) at m) (scores-mem cs s)
  ]
    where
      first_or_rest :
          (a : Scored)
          → score parse r now offline c ≡ some a
          → Memᴰ s (a ∷ scores parse r now offline cs)
          → (Memᴰ s (scores parse r now offline cs)
              → (d : PlacementCandidate) × Memᴰ d cs × (score parse r now offline d ≡ some s))
          → (d : PlacementCandidate) × Memᴰ d (c ∷ cs) × (score parse r now offline d ≡ some s)
      first_or_rest a e (Memᴰ.head p) later = (c, Memᴰ.head refl, rw p e)
      first_or_rest a e (Memᴰ.tail p) later = let (d, n, h) = later p in (d, Memᴰ.tail n, h)

  mem-scores :
      (cs : List PlacementCandidate) (c : PlacementCandidate) (s : Scored)
      → Memᴰ c cs
      → score parse r now offline c ≡ some s
      → Memᴰ s (scores parse r now offline cs)
  unfolding scores
  mem-scores [] c s m e = elim m [ ]
  mem-scores (d ∷ cs) c s (Memᴰ.head p) e =
      rw (scores, subst (λ x. score parse r now offline x ≡ some s) p e) (Memᴰ.head refl)
  mem-scores (d ∷ cs) c s (Memᴰ.tail m) e = elim (Option-cases (score parse r now offline d)) [
    | inl n ↦ rw (scores, n) (mem-scores cs c s m e)
    | inr (a, n) ↦ rw (scores, n) (Memᴰ.tail (mem-scores cs c s m e))
  ]

  -- `c` is a listed, eligible candidate to which no listed, eligible one is preferred.
  pub record IsBest (cs : List PlacementCandidate) (c : PlacementCandidate) : Type 0 where
    pub listed : Memᴰ c cs
    pub eligible : IsEligible c
    pub least :
        (d : PlacementCandidate) (a b : Capacity)
        → Memᴰ d cs
        → IsEligible d
        → capacity parse c.node ≡ some a
        → capacity parse d.node ≡ some b
        → IsPreferred c a d b

  Fits-Holds :
      (c : PlacementCandidate) (a : Capacity)
      → IsEligible c
      → capacity parse c.node ≡ some a
      → Holds a
  Fits-Holds c a e cap =
      let (memory, disk) = subst Fits cap e.fits in (omega (arith, disk), omega (arith, memory))

  score-eq-some :
      (c : PlacementCandidate) (a : Capacity)
      → IsEligible c
      → capacity parse c.node ≡ some a
      → score parse r now offline c ≡ some (c, a)
  unfolding score
  score-eq-some c a e h = ground (arith, ==_iff c.role r.required_role, ==_iff c.pool r.pool)

  candidate_of-eq-some :
      (cs : List PlacementCandidate) (c : PlacementCandidate)
      → select_placement_node parse r now offline cs ≡ some c
      → (a : Capacity) × (first (sort before (scores parse r now offline cs)) ≡ some (c, a))
  unfolding select_placement_node
  candidate_of-eq-some cs c h =
      elim (Option-cases (first (sort before (scores parse r now offline cs)))) [
        | inl e ↦ absurd (ground arith)
        | inr ((d, a), e) ↦ (a, ground arith)
      ]

  Fits-some : (o : Option Capacity) → Fits o → (a : Capacity) × (o ≡ some a)
  Fits-some none h = absurd h
  Fits-some (some a) h = (a, refl)

  select-eq-none :
      (cs : List PlacementCandidate)
      → select_placement_node parse r now offline cs ≡ none
      → first (sort before (scores parse r now offline cs)) ≡ none
  unfolding select_placement_node
  select-eq-none cs h = ground arith

  -- The chosen candidate is listed and eligible, and no eligible candidate is preferred to it: none
  -- has a lower share of its limit of tenants (10000 where there is none), none with the same share
  -- has more disk free beyond its reserve, none with the same disk has more memory free beyond its
  -- reserve, and none with the same memory has an id that comes first in the order of a dictionary.
  pub select_placement_node-IsBest :
      (cs : List PlacementCandidate) (c : PlacementCandidate)
      → select_placement_node parse r now offline cs ≡ some c
      → IsBest cs c
  select_placement_node-IsBest cs c h =
      let (a, e) = candidate_of-eq-some cs c h in
      let top =
        first-sort-IsLeast before before-IsWeakOrder (scores parse r now offline cs) (c, a) e in
      let (d, m, found) = scores-mem cs (c, a) top.listed in
      let (same, cap, eligible) = score-IsEligible d (c, a) found in
      record {
        listed = subst (λ x. Memᴰ x cs) (sym same) m;
        eligible = subst IsEligible (sym same) eligible;
        least = λ x a' b m' e' p q.
            let cap' : capacity parse c.node ≡ some a =
              subst (λ y. capacity parse y.node ≡ some a) (sym same) cap in
            let own = subst IsEligible (sym same) eligible in
            before-IsPreferred c x a' b (Fits-Holds c a' own p) (Fits-Holds x b e' q) (
              subst (λ y. before (x, b) (c, y) ≡ false) (some-injective _ _ (sym cap' ∙ p))
                (top.least (x, b) (mem-scores cs x (x, b) m' (score-eq-some x b e' q))));
      }

  -- There is no choice exactly where no listed candidate is eligible.
  pub select_placement_node-none :
      (cs : List PlacementCandidate)
      → (select_placement_node parse r now offline cs ≡ none)
        ↔ ((c : PlacementCandidate) → Memᴰ c cs → ¬ (IsEligible c))
  select_placement_node-none cs = (none_eligible, no_choice)
    where
      no_choice :
          ((c : PlacementCandidate) → Memᴰ c cs → ¬ (IsEligible c))
          → select_placement_node parse r now offline cs ≡ none
      no_choice h = elim (Option-cases (select_placement_node parse r now offline cs)) [
        | inl e ↦ e
        | inr (c, e) ↦
            let b = select_placement_node-IsBest cs c e in absurd (h c b.listed b.eligible)
      ]

      none_eligible :
          select_placement_node parse r now offline cs ≡ none
          → (c : PlacementCandidate) → Memᴰ c cs
          → ¬ (IsEligible c)
      none_eligible h c m e =
          let (a, cap) = Fits-some (capacity parse c.node) e.fits in
          first-sort-ne-none before before-IsWeakOrder (scores parse r now offline cs) (c, a)
            (mem-scores cs c (c, a) m (score-eq-some c a e cap)) (select-eq-none cs h)
