-- ===== src/Provisioning/Placement.antt =====
-- `capacity` and `selectPlacementNode` of deploy/cloudflare/src/provisioning.ts. Capacities are
-- kept in bytes, reserved part beside available part, and ratios are compared crosswise; the
-- doubles of the source are exact below 2^53 bytes, and tell apart ratios of terms below 2^26.
pub mod Order
pub mod Preference
pub mod Choice
use dsx_control_plane.Base.{
  ℕ, ◌+◌, ◌*◌, Bool, true, false, not, ◌&&◌, ◌||◌, Option, none, some, List, [], ◌∷◌, ltb, leb, eqb,
  if◌then◌else◌,
}
use dsx_control_plane.Text.{Text, ◌==◌, text}
use dsx_control_plane.Json.{Json, str, get, parse_object, nested_number}
use dsx_control_plane.Time.{Stamp, at, not_a_date}
use dsx_control_plane.Table.Order.{sort, first}
use dsx_control_plane.Db.States.{is_active}
use dsx_control_plane.Db.Rows.{Node}

pub record PlacementCandidate : Type 0 where
  pub node : Node
  pub open node use *
  pub tenant_count : ℕ

pub record PlacementRequirements : Type 0 where
  pub required_role : Text
  pub min_memory_mb : ℕ
  pub min_disk_gb : ℕ
  pub pool : Text

-- `memory_mb` is `memory_bytes / mib - memory_reserved`, and `disk_gb` likewise.
pub record Capacity : Type 0 where
  pub memory_bytes : ℕ
  pub memory_reserved : ℕ
  pub disk_bytes : ℕ
  pub disk_reserved : ℕ

abbrev pub mib : ℕ
mib = 1024 * 1024

abbrev pub gib : ℕ
gib = 1024 * 1024 * 1024

abbrev both : Node → Option ℕ → Option ℕ → Option Capacity
both n (some memory) (some disk) = some (record {
  memory_bytes = memory;
  memory_reserved = n.reserved_memory_mb;
  disk_bytes = disk;
  disk_reserved = n.reserved_disk_gb;
})
both n _ _ = none

-- `localeCompare` on ids, which are lower-case UUIDs: there it is the order of the code units.
unfoldable pub text_less : Text → Text → Bool
text_less [] [] = false
text_less [] (b ∷ t) = true
text_less (a ∷ s) [] = false
text_less (a ∷ s) (b ∷ t) = ltb a b || eqb a b && text_less s t

-- The second factor of `tenantRatio`.
abbrev pub ratio_base : Option ℕ → ℕ
ratio_base none = 10000
ratio_base (some m) = if eqb m 0 then 10000 else m

abbrev pub Scored : Type 0
Scored = PlacementCandidate × Capacity

-- if (left !== right) return left - right; ...
abbrev pub differ : ℕ → ℕ → Bool → Bool
differ left right rest = if not (eqb left right) then ltb left right else rest

abbrev pub ratio : Scored → Scored → ℕ
ratio (l, a) (r, b) = l.tenant_count * ratio_base r.max_tenants

-- `right.available.disk_gb - left.available.disk_gb`, with each side's reserve on the other.
abbrev pub less_disk : Scored → Scored → ℕ
less_disk (l, a) (r, b) = b.disk_bytes + a.disk_reserved * gib

abbrev pub less_memory : Scored → Scored → ℕ
less_memory (l, a) (r, b) = b.memory_bytes + a.memory_reserved * mib

abbrev pub by_id : Scored → Scored → Bool
by_id (l, a) (r, b) = text_less l.id r.id

-- The comparator of `sort`, as "left comes before right".
unfoldable pub before : Scored → Scored → Bool
unfolding text_less
before l r = differ (ratio l r) (ratio r l) (
    differ (less_disk l r) (less_disk r l) (differ (less_memory l r) (less_memory r l) (by_id l r)))

-- The tests of `map`, in their order.
unfoldable pub seen_too_long_ago : Option Stamp → ℕ → Option ℕ → Bool
seen_too_long_ago none now offline = true
seen_too_long_ago (some not_a_date) now offline = true
seen_too_long_ago (some (at seen)) now none = false
seen_too_long_ago (some (at seen)) now (some seconds) = ltb (seen + seconds * 1000) now

unfoldable pub is_full : Option ℕ → ℕ → Bool
is_full none count = false
is_full (some m) count = leb m count

module _ (parse : Text → Option Json) where
  unfoldable pub capacity : Node → Option Capacity
  unfolding get parse_object nested_number ◌==◌
  capacity n =
      let metrics = parse_object parse (some (str n.metrics)) in
      let memory = parse_object parse (get metrics (text "memory")) in
      let disk = parse_object parse (get metrics (text "disk")) in
      both n (nested_number memory (text "available_bytes"))
        (nested_number disk (text "free_bytes"))

  module _ (r : PlacementRequirements) (now : ℕ) (offline : Option ℕ) where
    abbrev enough : PlacementCandidate → Option Capacity → Option Scored
    enough c none = none
    enough c (some a) =
        if ltb a.memory_bytes ((r.min_memory_mb + a.memory_reserved) * mib)
          || ltb a.disk_bytes ((r.min_disk_gb + a.disk_reserved) * gib)
        then none
        else some (c, a)

    unfoldable pub score : PlacementCandidate → Option Scored
    unfolding is_active ◌==◌ seen_too_long_ago is_full
    score c =
        if not (is_active c.lifecycle_state)
          || not (c.role == r.required_role)
          || not (c.pool == r.pool)
          || seen_too_long_ago c.last_seen_at now offline
          || is_full c.max_tenants c.tenant_count
        then none
        else enough c (capacity c.node)

    unfoldable pub scores : List PlacementCandidate → List Scored
    unfolding score
    scores [] = []
    scores (c ∷ cs) = elim (score c) [ none ↦ scores cs | some s ↦ s ∷ scores cs ]

    abbrev candidate_of : Option Scored → Option PlacementCandidate
    candidate_of none = none
    candidate_of (some (c, _)) = some c

    unfoldable pub select_placement_node : List PlacementCandidate → Option PlacementCandidate
    unfolding scores sort before
    select_placement_node candidates = candidate_of (first (sort before (scores candidates)))
