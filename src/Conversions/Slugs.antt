-- ===== src/Conversions/Slugs.antt =====
-- The slugs that `productionSlugForConversion` makes, and approvals without a slug of their own.
pub mod Parts
use mathlib.Core.List.{reverse}
use dsx_control_plane.Base.{
  ℕ, zero, suc, ◌+◌, ◌-◌, ◌≤◌, ◌<◌, ◌≡◌, refl, inl, inr, Bool, true, false, ◌&&◌, ◌||◌, List, [],
  ◌∷◌, ◌++◌, map, leb, ltb, eqb, arith, Bool-cases, if◌then◌else◌,
}
use dsx_control_plane.Base.Lists.{
  length, take, every, select, length-append, length-take-le, every-take, every-append,
}
use dsx_control_plane.Text.{Text, text, is_empty, trim, to_lower_case, slice}
use dsx_control_plane.Text.Patterns.{
  is_lower_alnum, is_slug_unit, head_and_tail, last_is, safe_slug,
}
use dsx_control_plane.Conversions.Slug.{
  slug_unit, drop_dashes, drop_last_dashes, conversion_token, prod, plain_base, cut_base,
  long_enough, production_slug_for_conversion,
}
use dsx_control_plane.Base.{le→leb, Option, some, String, Result, ok, err}
use dsx_control_plane.Json.{Json, str, Fields, get, string_value}
use dsx_control_plane.Conversions.Inputs.{
  TrialConversionApprovalInput, lower_text, or_text, parse_trial_conversion_approval_input,
}
use dsx_control_plane.Conversions.Slugs.Parts.{
  IsBase, IsToken, plain_base-IsBase, cut_base-IsBase, long_enough-IsBase, conversion_token-IsToken,
  joined-safe,
}

-- Whatever the slug of the trial and the id of the conversion, the slug that is made for the
-- production tenant is one that `SAFE_SLUG` accepts, and has at most 64 units.
pub production_slug_for_conversion-safe :
    (trial_slug conversion_id : Text)
    → (length (production_slug_for_conversion trial_slug conversion_id) ≤ 64)
      × (safe_slug (production_slug_for_conversion trial_slug conversion_id) ≡ true)
unfolding production_slug_for_conversion
production_slug_for_conversion-safe trial_slug conversion_id =
    let token = conversion_token conversion_id in
    let t = conversion_token-IsToken conversion_id in
    let n = 64 - length (prod ++ token) - 1 in
    let base = cut_base n (plain_base trial_slug) in
    let b =
      cut_base-IsBase n (length (plain_base trial_slug)) (plain_base trial_slug)
        (plain_base-IsBase trial_slug) in
    let (l, k) = long_enough-IsBase n base (omega (arith, t.short)) b in
    joined-safe n (long_enough base) token l k (omega (arith, t.short)) t

length-slice_name :
    (name : Text)
    → (is_empty (slice 120 (name ++ text " Production")) ≡ false)
      × (length (slice 120 (name ++ text " Production")) ≤ 120)
unfolding is_empty
length-slice_name [] = (refl, omega arith)
length-slice_name (c ∷ s) = (refl, length-take-le 120 (c ∷ s ++ text " Production"))

safe_slug-length : (s : Text) → safe_slug s ≡ true → 2 ≤ length s
unfolding safe_slug head_and_tail
safe_slug-length [] h = absurd (ground arith)
safe_slug-length (c ∷ s) h = ground arith

length-string_value : (v : Option Json) (n : ℕ) → length (string_value v n) ≤ n
unfolding string_value
length-string_value (some (str s)) n = length-take-le n (trim s)
length-string_value _ n = omega arith

abbrev IsName : Text → Type 0
IsName s = (is_empty s ≡ false) × (length s ≤ 120)

or_text-IsName : (s t : Text) → length s ≤ 120 → IsName t → IsName (or_text s t)
or_text-IsName s t h k = elim (Bool-cases (is_empty s)) [ inl e ↦ rw e k | inr e ↦ rw e (e, h) ]

-- An approval whose body names no slug is accepted by the parser, with the slug that is made from
-- the trial's. Its name has 1 to 120 units.
pub parse_trial_conversion_approval_input-total :
    (input : Fields) (trial_name trial_slug conversion_id : Text)
    → lower_text (get input (text "production_slug")) ≡ []
    → (a : TrialConversionApprovalInput) × (parse_trial_conversion_approval_input input trial_name
          trial_slug conversion_id
        ≡ ok a)
      × (a.production_slug ≡ production_slug_for_conversion trial_slug conversion_id)
      × (is_empty a.production_name ≡ false)
      × (length a.production_name ≤ 120)
unfolding parse_trial_conversion_approval_input
parse_trial_conversion_approval_input-total input trial_name trial_slug conversion_id h =
    let made = production_slug_for_conversion trial_slug conversion_id in
    let (short, safe) = production_slug_for_conversion-safe trial_slug conversion_id in
    let (name_units, name_short) =
      or_text-IsName (string_value (get input (text "production_name")) 120)
        (slice 120 (trial_name ++ text " Production"))
        (length-string_value (get input (text "production_name")) 120)
        (length-slice_name trial_name) in
    (
      record { production_name = _; production_slug = made },
      rw
          (
            h,
            name_units,
            le→leb 2 (length made) (safe_slug-length made safe),
            le→leb (length made) 64 short,
            safe,
          )
          refl,
      refl,
      name_units,
      name_short,
    )
