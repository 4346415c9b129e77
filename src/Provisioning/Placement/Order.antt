-- ===== src/Provisioning/Placement/Order.antt =====
-- The comparator of `selectPlacementNode` is a weak order.
use dsx_control_plane.Base.{ℕ, ◌*◌, ◌≤◌, ◌<◌, ◌≡◌, Bool, true, false, Option, [], ◌∷◌, arith}
use native.Mathlib.Nat.{mul-le-mul_right, le_of_mul-le-mul_right}
use dsx_control_plane.Text.{Text}
use dsx_control_plane.Table.Order.{IsWeakOrder}
use dsx_control_plane.Provisioning.Placement.{
  Scored, text_less, ratio_base, differ, ratio, less_disk, less_memory, by_id, before,
}

text_less_asymm : (s t : Text) → text_less s t ≡ true → text_less t s ≡ false
unfolding text_less
text_less_asymm [] [] h = ground arith
text_less_asymm [] (b ∷ t) h = ground arith
text_less_asymm (a ∷ s) [] h = ground arith
text_less_asymm (a ∷ s) (b ∷ t) h = ground (arith, text_less_asymm s t)

text_less_negative :
    (s t u : Text) → text_less u t ≡ false → text_less t s ≡ false → text_less u s ≡ false
unfolding text_less
text_less_negative [] [] [] h k = ground arith
text_less_negative [] (b ∷ t) [] h k = ground arith
text_less_negative [] [] (c ∷ u) h k = ground arith
text_less_negative [] (b ∷ t) (c ∷ u) h k = ground arith
text_less_negative (a ∷ s) [] [] h k = ground arith
text_less_negative (a ∷ s) (b ∷ t) [] h k = ground arith
text_less_negative (a ∷ s) [] (c ∷ u) h k = ground arith
text_less_negative (a ∷ s) (b ∷ t) (c ∷ u) h k = ground (arith, text_less_negative s t u)

ratio_base_pos : (o : Option ℕ) → 0 < ratio_base o
ratio_base_pos o = ground arith

-- a / p ≤ b / q and b / q ≤ c / r give a / p ≤ c / r.
ratio_trans : (a b c p q r : ℕ) → 0 < q → a * q ≤ b * p → b * r ≤ c * q → a * r ≤ c * p
ratio_trans a b c p q r pos h k =
    let h' : a * q * r ≤ b * p * r = mul-le-mul_right r h in
    let k' : b * r * p ≤ c * q * p = mul-le-mul_right p k in
    let both : a * r * q ≤ c * p * q = omega arith in le_of_mul-le-mul_right both pos

-- One level of the comparator, over those below it.
module _ {A : Type 0} (f : A → A → ℕ) (rest : A → A → Bool) (w : IsWeakOrder rest)
    (chain : (x y z : A) → f x y ≤ f y x → f y z ≤ f z y → f x z ≤ f z x) where
  abbrev level : A → A → Bool
  level x y = differ (f x y) (f y x) (rest x y)

  level-IsWeakOrder : IsWeakOrder level
  level-IsWeakOrder = record { asymm = λ x y h. ground (arith, w.asymm x y); negative = negative }
    where
      negative : (x y z : A) → level z y ≡ false → level y x ≡ false → level z x ≡ false
      negative x y z h k = ground (arith, w.negative x y z, chain x y z, chain y z x, chain z x y)

by_id-IsWeakOrder : IsWeakOrder by_id
by_id-IsWeakOrder = record {
  asymm = λ (l, a) (r, b) h. text_less_asymm l.id r.id h;
  negative = λ (x, a) (y, b) (z, c) h k. text_less_negative x.id y.id z.id h k;
}

ratio_chain :
    (x y z : Scored) → ratio x y ≤ ratio y x → ratio y z ≤ ratio z y → ratio x z ≤ ratio z x
ratio_chain (x, a) (y, b) (z, c) =
    ratio_trans x.tenant_count y.tenant_count z.tenant_count (ratio_base x.max_tenants)
      (ratio_base y.max_tenants) (ratio_base z.max_tenants) (ratio_base_pos y.max_tenants)

disk_chain :
    (x y z : Scored)
    → less_disk x y ≤ less_disk y x
    → less_disk y z ≤ less_disk z y
    → less_disk x z ≤ less_disk z x
disk_chain (x, a) (y, b) (z, c) h k = omega arith

memory_chain :
    (x y z : Scored)
    → less_memory x y ≤ less_memory y x
    → less_memory y z ≤ less_memory z y
    → less_memory x z ≤ less_memory z x
memory_chain (x, a) (y, b) (z, c) h k = omega arith

pub before-IsWeakOrder : IsWeakOrder before
unfolding before
before-IsWeakOrder =
    level-IsWeakOrder ratio _
      (level-IsWeakOrder less_disk _
        (level-IsWeakOrder less_memory by_id by_id-IsWeakOrder memory_chain) disk_chain)
      ratio_chain
