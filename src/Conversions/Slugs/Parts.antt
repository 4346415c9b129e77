-- ===== src/Conversions/Slugs/Parts.antt =====
-- The base of a slug of `productionSlugForConversion` at each stage, the token, and the two joined.
use dsx_control_plane.Base.{
  ℕ, zero, suc, ◌+◌, ◌≤◌, ◌≡◌, refl, inl, inr, Bool, true, false, [], ◌∷◌, ◌++◌, map, ltb, arith,
  Bool-cases,
}
use dsx_control_plane.Base.Lists.{
  length, take, every, select, length-append, length-take-le, every-take, every-append,
}
use dsx_control_plane.Text.{Text, is_empty, trim, to_lower_case, slice}
use dsx_control_plane.Text.Patterns.{
  is_lower_alnum, is_lower_hex, is_slug_unit, head_and_tail, last_is, safe_slug,
}
use dsx_control_plane.Conversions.Slug.{
  slug_unit, drop_dashes, drop_last_dashes, conversion_token, prod, plain_base, cut_base,
  long_enough,
}

every-map-slug_unit : (s : Text) → every is_slug_unit (map slug_unit s) ≡ true
unfolding every slug_unit
every-map-slug_unit [] = refl
every-map-slug_unit (c ∷ s) = elim (Bool-cases (is_slug_unit c)) [
  | inl t ↦ rw (t, t) (every-map-slug_unit s)
  | inr f ↦ rw f (unfold is_slug_unit is_lower_alnum in every-map-slug_unit s)
]

-- Nothing, or a letter or digit in front.
unfoldable starts : Text → Bool
starts [] = true
starts (c ∷ s) = is_lower_alnum c

-- What the base is at every stage.
pub record IsBase (n : ℕ) (s : Text) : Type 0 where
  front : starts s ≡ true
  units : every is_slug_unit s ≡ true
  short : length s ≤ n

every-drop_dashes : (p : ℕ → Bool) (s : Text) → every p s ≡ true → every p (drop_dashes s) ≡ true
unfolding every drop_dashes
every-drop_dashes p [] h = refl
every-drop_dashes p (c ∷ s) h = ground (arith, every-drop_dashes p s)

starts-drop_dashes : (s : Text) → every is_slug_unit s ≡ true → starts (drop_dashes s) ≡ true
unfolding every drop_dashes starts is_slug_unit
starts-drop_dashes [] h = refl
starts-drop_dashes (c ∷ s) h = ground (arith, starts-drop_dashes s)

every-drop_last_dashes :
    (p : ℕ → Bool) (s : Text) → every p s ≡ true → every p (drop_last_dashes s) ≡ true
unfolding every drop_last_dashes
every-drop_last_dashes p [] h = refl
every-drop_last_dashes p (c ∷ s) h = ground (arith, every-drop_last_dashes p s)

starts-drop_last_dashes : (s : Text) → starts s ≡ true → starts (drop_last_dashes s) ≡ true
unfolding drop_last_dashes starts
starts-drop_last_dashes [] h = refl
starts-drop_last_dashes (c ∷ s) h = ground arith

length-drop_last_dashes : (s : Text) → length (drop_last_dashes s) ≤ length s
unfolding drop_last_dashes
length-drop_last_dashes [] = omega arith
length-drop_last_dashes (c ∷ s) = ground (arith, length-drop_last_dashes s)

starts-take : (n : ℕ) (s : Text) → starts s ≡ true → starts (take n s) ≡ true
unfolding starts
starts-take zero s h = refl
starts-take (suc n) [] h = refl
starts-take (suc n) (c ∷ s) h = h

pub plain_base-IsBase : (s : Text) → IsBase (length (plain_base s)) (plain_base s)
unfolding plain_base
plain_base-IsBase s =
    let raw = map slug_unit (to_lower_case (trim s)) in
    let units = every-map-slug_unit (to_lower_case (trim s)) in
    record {
      front = starts-drop_last_dashes (drop_dashes raw) (starts-drop_dashes raw units);
      units =
          every-drop_last_dashes is_slug_unit (drop_dashes raw)
            (every-drop_dashes is_slug_unit raw units);
      short = omega arith;
    }

pub cut_base-IsBase : (n m : ℕ) (s : Text) → IsBase m s → IsBase n (cut_base n s)
unfolding cut_base
cut_base-IsBase n m s b = elim (Bool-cases (ltb n (length s))) [
  | inl t ↦
      rw (cut_base, t)
        (record {
          front = starts-drop_last_dashes (take n s) (starts-take n s b.front);
          units =
              every-drop_last_dashes is_slug_unit (take n s) (every-take is_slug_unit n s b.units);
          short = omega (arith, length-drop_last_dashes (take n s), length-take-le n s);
        })
  | inr f ↦ rw (cut_base, f) (record { front = b.front; units = b.units; short = ground arith })
]

pub long_enough-IsBase :
    (n : ℕ) (s : Text)
    → 5 ≤ n
    → IsBase n s
    → IsBase n (long_enough s) × (2 ≤ length (long_enough s))
long_enough-IsBase n s k b = elim (Bool-cases (ltb (length s) 2)) [
  | inl t ↦ rw t (
    record {
      front = unfold starts is_lower_alnum in refl;
      units = unfold every is_slug_unit is_lower_alnum in refl;
      short = k;
    },
    omega arith,
  )
  | inr f ↦ rw f (b, ground arith)
]

every-select : (p : ℕ → Bool) (s : Text) → every p (select p s) ≡ true
unfolding every select
every-select p [] = refl
every-select p (c ∷ s) = ground (arith, every-select p s)

every-implied :
    (p q : ℕ → Bool) (s : Text)
    → ((c : ℕ) → p c ≡ true → q c ≡ true)
    → every p s ≡ true
    → every q s ≡ true
unfolding every
every-implied p q [] i h = refl
every-implied p q (c ∷ s) i h = ground (arith, i c, every-implied p q s i)

is_lower_hex-alnum : (c : ℕ) → is_lower_hex c ≡ true → is_lower_alnum c ≡ true
unfolding is_lower_hex is_lower_alnum
is_lower_hex-alnum c h = ground arith

alnum-slug_unit : (c : ℕ) → is_lower_alnum c ≡ true → is_slug_unit c ≡ true
unfolding is_slug_unit
alnum-slug_unit c h = ground arith

-- What stands behind the last dash.
pub record IsToken (s : Text) : Type 0 where
  units : every is_lower_alnum s ≡ true
  some_unit : 1 ≤ length s
  pub short : length s ≤ 8

one_le_of_not_empty : (s : Text) → is_empty s ≡ false → 1 ≤ length s
unfolding is_empty
one_le_of_not_empty [] f = absurd (ground arith)
one_le_of_not_empty (c ∷ s) f = omega arith

pub conversion_token-IsToken : (id : Text) → IsToken (conversion_token id)
unfolding conversion_token
conversion_token-IsToken id =
    let hex = select is_lower_hex (to_lower_case id) in
    elim (Bool-cases (is_empty (slice 8 hex))) [
      | inl t ↦
          rw (conversion_token, t)
            (record {
              units = unfold every is_lower_alnum in refl;
              some_unit = omega arith;
              short = omega arith;
            })
      | inr f ↦
          rw (conversion_token, f)
            (record {
              units =
                  every-implied is_lower_hex is_lower_alnum (slice 8 hex) is_lower_hex-alnum
                    (every-take is_lower_hex 8 hex (every-select is_lower_hex (to_lower_case id)));
              some_unit = one_le_of_not_empty (slice 8 hex) f;
              short = length-take-le 8 hex;
            })
    ]

last_is-every : (p : ℕ → Bool) (s : Text) → every p s ≡ true → 1 ≤ length s → last_is p s ≡ true
unfolding every last_is
last_is-every p [] h k = absurd (omega arith)
last_is-every p (c ∷ []) h k = ground arith
last_is-every p (c ∷ d ∷ s) h k = ground (arith, last_is-every p (d ∷ s))

last_is-append : (p : ℕ → Bool) (s t : Text) → 1 ≤ length t → last_is p (s ++ t) ≡ last_is p t
unfolding last_is
last_is-append p [] t k = refl
last_is-append p (c ∷ []) [] k = absurd (omega arith)
last_is-append p (c ∷ []) (d ∷ t) k = refl
last_is-append p (c ∷ d ∷ s) t k = last_is-append p (d ∷ s) t k

-- A base, a dash and a suffix that ends in a token.
pub joined-safe :
    (n : ℕ) (base token : Text)
    → IsBase n base
    → 2 ≤ length base
    → n + length token ≤ 58
    → IsToken token
    → (length (base ++ (b'-' ∷ (prod ++ token))) ≤ 64)
      × (safe_slug (base ++ (b'-' ∷ (prod ++ token))) ≡ true)
unfolding safe_slug head_and_tail every starts
joined-safe n [] token b k short t = absurd (omega arith)
joined-safe n (c ∷ base) token b k short t =
    let suffix = b'-' ∷ (prod ++ token) in
    let len = length-append base suffix in
    let units : every is_slug_unit suffix ≡ true =
      every-append is_slug_unit (b'-' ∷ prod) token
        (unfold every is_slug_unit is_lower_alnum in refl)
        (every-implied is_lower_alnum is_slug_unit token alnum-slug_unit t.units) in
    let end : last_is is_lower_alnum (c ∷ base ++ suffix) ≡ true =
      rw
        (
          last_is-append is_lower_alnum (c ∷ base) suffix (omega arith),
          last_is-append is_lower_alnum (b'-' ∷ prod) token t.some_unit,
        )
        (last_is-every is_lower_alnum token t.units t.some_unit) in
    (
      omega (arith, len, b.short, t.short),
      ground (
        arith,
        len,
        b.front,
        b.units,
        b.short,
        t.short,
        end,
        every-append is_slug_unit base suffix (ground (arith, b.units)) units,
      ),
    )
