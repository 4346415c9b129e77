-- ===== src/Conversions/Slug.antt =====
-- `productionSlugForConversion` of deploy/cloudflare/src/trialConversion.ts.
use dsx_control_plane.Base.{ℕ, ◌-◌, ◌&&◌, [], ◌∷◌, ◌++◌, map, ltb, eqb, if◌then◌else◌}
use dsx_control_plane.Base.Lists.{length, select}
use dsx_control_plane.Text.{Text, text, is_empty, trim, to_lower_case, slice}
use dsx_control_plane.Text.Patterns.{is_slug_unit, is_lower_hex}

-- replace(/[^a-z0-9-]/g, "-")
unfoldable pub slug_unit : ℕ → ℕ
unfolding is_slug_unit
slug_unit c = if is_slug_unit c then c else b'-'

-- ^-+
unfoldable pub drop_dashes : Text → Text
drop_dashes [] = []
drop_dashes (c ∷ s) = let rest = drop_dashes s in if eqb c b'-' then rest else c ∷ s

-- -+$
unfoldable pub drop_last_dashes : Text → Text
unfolding is_empty
drop_last_dashes [] = []
drop_last_dashes (c ∷ s) =
    let rest = drop_last_dashes s in if is_empty rest && eqb c b'-' then [] else c ∷ rest

unfoldable pub conversion_token : Text → Text
unfolding is_lower_hex select to_lower_case is_empty
conversion_token conversion_id =
    let digits = slice 8 (select is_lower_hex (to_lower_case conversion_id)) in
    if is_empty digits then text "00000000" else digits

abbrev pub prod : Text
prod = text "prod-"

-- The base of the slug before it is cut.
unfoldable pub plain_base : Text → Text
unfolding trim to_lower_case slug_unit drop_dashes drop_last_dashes
plain_base trial_slug =
    drop_last_dashes (drop_dashes (map slug_unit (to_lower_case (trim trial_slug))))

unfoldable pub cut_base : ℕ → Text → Text
unfolding drop_last_dashes
cut_base max_length base =
    if ltb max_length (length base) then drop_last_dashes (slice max_length base) else base

abbrev pub long_enough : Text → Text
long_enough base = if ltb (length base) 2 then text "trial" else base

unfoldable pub production_slug_for_conversion : Text → Text → Text
unfolding conversion_token plain_base cut_base
production_slug_for_conversion trial_slug conversion_id =
    let suffix = prod ++ conversion_token conversion_id in
    let max_base_length = 64 - length suffix - 1 in
    long_enough (cut_base max_base_length (plain_base trial_slug)) ++ (b'-' ∷ suffix)
