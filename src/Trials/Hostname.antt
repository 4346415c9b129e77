-- ===== src/Trials/Hostname.antt =====
-- `trialHostname` of deploy/cloudflare/src/trials.ts. No label of a domain holds a dot, so that
-- SAFE_BASE_DOMAIN is a test on the parts between dots.
use dsx_control_plane.Base.{
  ℕ, Bool, false, ◌&&◌, ◌||◌, not, Option, none, some, List, [], ◌∷◌, ◌++◌, leb, eqb, if◌then◌else◌,
}
use dsx_control_plane.Base.Lists.{length, every}
use dsx_control_plane.Text.{Text, is_empty, trim, to_lower_case}
use dsx_control_plane.Text.Patterns.{is_lower_alnum, is_slug_unit, head_and_tail, last_is}

-- ^\.+
unfoldable pub drop_dots : Text → Text
drop_dots [] = []
drop_dots (c ∷ s) = let rest = drop_dots s in if eqb c b'.' then rest else c ∷ s

-- \.+$
unfoldable pub drop_last_dots : Text → Text
drop_last_dots [] = []
drop_last_dots (c ∷ s) =
    let rest = drop_last_dots s in if is_empty rest && eqb c b'.' then [] else c ∷ rest

abbrev push : ℕ → List Text → List Text
push c [] = (c ∷ []) ∷ []
push c (part ∷ parts) = (c ∷ part) ∷ parts

-- The parts between dots.
unfoldable pub parts : Text → List Text
parts [] = [] ∷ []
parts (c ∷ s) = let rest = parts s in if eqb c b'.' then [] ∷ rest else push c rest

-- [a-z0-9](?:[a-z0-9-]{0,61}[a-z0-9])?
unfoldable pub safe_label : Text → Bool
unfolding head_and_tail is_slug_unit last_is
safe_label s = head_and_tail is_lower_alnum is_slug_unit 0 62 s && last_is is_lower_alnum s

-- [a-z]{2,63}
unfoldable pub safe_top : Text → Bool
unfolding every
safe_top s = leb 2 (length s) && leb (length s) 63 && every (λ c. leb b'a' c && leb c b'z') s

abbrev labels_then_top : Text → List Text → Bool
labels_then_top s [] = safe_top s
labels_then_top s (t ∷ ts) = safe_label s && labels_then_top t ts

unfoldable pub safe_base_domain : Text → Bool
unfolding parts safe_label safe_top
safe_base_domain s = elim (parts s) [
  | [] ↦ false
  | p ∷ [] ↦ false
  | p ∷ (q ∷ qs) ↦ labels_then_top p (q ∷ qs)
]

unfoldable pub normalized_domain : Option Text → Text
unfolding trim to_lower_case drop_dots drop_last_dots
normalized_domain none = []
normalized_domain (some s) = drop_last_dots (drop_dots (to_lower_case (trim s)))

unfoldable pub trial_hostname : Text → Option Text → Option Text
unfolding normalized_domain safe_base_domain is_empty
trial_hostname slug base_domain =
    let normalized = normalized_domain base_domain in
    if is_empty normalized || not (safe_base_domain normalized)
    then none
    else some (slug ++ (b'.' ∷ normalized))
