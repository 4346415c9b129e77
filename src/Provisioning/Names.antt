-- ===== src/Provisioning/Names.antt =====
-- The names that `expectedDatabaseName` makes.
use mathlib.Core.List.{append_assoc}
use dsx_control_plane.Base.{
  ℕ, zero, suc, ◌+◌, ◌≤◌, ◌≡◌, refl, sym, ap, ◌∙◌, inl, inr, Bool, true, false, ◌&&◌, [], ◌∷◌, ◌++◌,
  map, arith, leb, Bool-cases,
}
use dsx_control_plane.Base.Lists.{
  length, take, every, select, every-take, every-append, length-append, length-take-le,
}
use dsx_control_plane.Text.{Text, is_empty, slice, to_lower_case}
use dsx_control_plane.Text.Patterns.{is_database_unit, head_and_tail, safe_database}
use dsx_control_plane.Provisioning.DatabaseName.{
  is_hex_unit, underscore, safe_slug_part, id_suffix, expected_database_name,
}

-- A template's `database_prefix` in the form that the seeded templates have.
unfoldable pub safe_prefix : Text → Bool
unfolding every is_database_unit
safe_prefix [] = false
safe_prefix (c ∷ s) = leb b'a' c && leb c b'z' && every is_database_unit s

every-select : (p : ℕ → Bool) (s : Text) → every p (select p s) ≡ true
unfolding every select
every-select p [] = refl
every-select p (c ∷ s) = ground (arith, every-select p s)

every_mono :
    (p q : ℕ → Bool)
    → ((c : ℕ) → p c ≡ true → q c ≡ true)
    → (s : Text) → every p s ≡ true
    → every q s ≡ true
unfolding every
every_mono p q h [] e = refl
every_mono p q h (c ∷ s) e = ground (arith, every_mono p q h s, h c)

hex-database : (c : ℕ) → is_hex_unit c ≡ true → is_database_unit c ≡ true
unfolding is_database_unit
hex-database c h = ground arith

id_suffix-database : (id : Text) → every is_database_unit (id_suffix id) ≡ true
unfolding id_suffix is_database_unit every
id_suffix-database id =
    elim (Bool-cases (is_empty (slice 8 (select is_hex_unit (to_lower_case id))))) [
      | inl e ↦ rw e refl
      | inr e ↦ rw e (
          every-take is_database_unit 8 (select is_hex_unit (to_lower_case id)) (
            every_mono is_hex_unit is_database_unit hex-database
              (select is_hex_unit (to_lower_case id))
              (every-select is_hex_unit (to_lower_case id))))
    ]

id_suffix-length : (id : Text) → 1 ≤ length (id_suffix id)
unfolding id_suffix is_empty
id_suffix-length id = ground arith

safe_slug_part-database : (slug : Text) → every is_database_unit (safe_slug_part slug) ≡ true
unfolding safe_slug_part
safe_slug_part-database slug = every-select is_database_unit (map underscore (to_lower_case slug))

-- The name after the first unit, before the cut.
abbrev tail_of : Text → Text → Text → Text
tail_of rest slug id = rest ++ (b'_' ∷ (safe_slug_part slug ++ (b'_' ∷ id_suffix id)))

tail_of-database :
    (rest slug id : Text)
    → every is_database_unit rest ≡ true
    → every is_database_unit (tail_of rest slug id) ≡ true
tail_of-database rest slug id h = every-append is_database_unit rest _ h (
    unfold every is_database_unit in
    every-append is_database_unit (safe_slug_part slug) _ (safe_slug_part-database slug)
      (id_suffix-database id))

length-take-min : (n : ℕ) (s : Text) → n ≤ length s → length (take n s) ≡ n
length-take-min zero s h = refl
length-take-min (suc n) [] h = omega arith
length-take-min (suc n) (c ∷ s) h = omega (arith, length-take-min n s)

length-tail_of : (rest slug id : Text) → 3 ≤ length (tail_of rest slug id)
length-tail_of rest slug id = omega (
  arith,
  length-append rest (b'_' ∷ (safe_slug_part slug ++ (b'_' ∷ id_suffix id))),
  length-append (safe_slug_part slug) (b'_' ∷ id_suffix id),
  id_suffix-length id,
)

length-take-ge : (n k : ℕ) (s : Text) → k ≤ n → k ≤ length s → k ≤ length (take n s)
length-take-ge zero k s h l = omega arith
length-take-ge (suc n) k [] h l = omega arith
length-take-ge (suc n) zero (c ∷ s) h l = omega arith
length-take-ge (suc n) (suc k) (c ∷ s) h l = omega (arith, length-take-ge n k s)

head_and_tail_intro :
    (first rest : ℕ → Bool) (lo hi c : ℕ) (s : Text)
    → first c ≡ true
    → lo ≤ length s
    → length s ≤ hi
    → every rest s ≡ true
    → head_and_tail first rest lo hi (c ∷ s) ≡ true
unfolding head_and_tail
head_and_tail_intro first rest lo hi c s a l h e = ground arith

safe_prefix-parts :
    (c : ℕ) (s : Text)
    → safe_prefix (c ∷ s) ≡ true
    → ((leb b'a' c && leb c b'z') ≡ true) × (every is_database_unit s ≡ true)
unfolding safe_prefix
safe_prefix-parts c s h = (ground arith, ground arith)

-- With a safe prefix, the expected name of any tenant has at most 63 units and passes
-- SAFE_DATABASE, which `parseOperationResult` tests of the reported name.
pub expected_database_name-safe :
    (prefix slug id : Text)
    → safe_prefix prefix ≡ true
    → safe_database (expected_database_name prefix slug id) ≡ true
unfolding expected_database_name safe_database
expected_database_name-safe [] slug id h = absurd (unfold safe_prefix in ground arith)
expected_database_name-safe (c ∷ rest) slug id h =
    let (first, later) = safe_prefix-parts c rest h in
    head_and_tail_intro (λ x. leb b'a' x && leb x b'z') is_database_unit 2 62 c
      (take 62 (tail_of rest slug id)) first
      (length-take-ge 62 2 (tail_of rest slug id) (omega arith)
        (omega (arith, length-tail_of rest slug id)))
      (length-take-le 62 (tail_of rest slug id))
      (every-take is_database_unit 62 (tail_of rest slug id) (tail_of-database rest slug id later))

take-append : (n : ℕ) (s t u : Text) → n ≤ length s → take n (s ++ t) ≡ take n (s ++ u)
take-append zero s t u h = refl
take-append (suc n) [] t u h = absurd (omega arith)
take-append (suc n) (c ∷ s) t u h = ap (◌∷◌ c) (take-append n s t u (omega arith))

regroup : (p c r u : Text) → p ++ (b'_' ∷ ((c ++ r) ++ u)) ≡ (p ++ (b'_' ∷ c)) ++ (r ++ u)
regroup p c r u = simp append_assoc

-- Two tenants get one database name, whatever their ids, if their slugs agree up to the cut at 63:
-- then the part that would tell them apart is cut off.
pub expected_database_name-collision :
    (prefix slug slug' id id' common rest rest' : Text)
    → safe_slug_part slug ≡ common ++ rest
    → safe_slug_part slug' ≡ common ++ rest'
    → 62 ≤ length prefix + length common
    → expected_database_name prefix slug id ≡ expected_database_name prefix slug' id'
unfolding expected_database_name
expected_database_name-collision prefix slug slug' id id' common rest rest' e e' long =
    let start : Text = prefix ++ (b'_' ∷ common) in
    let lengths : 63 ≤ length start = omega (arith, length-append prefix (b'_' ∷ common)) in
    rw (e, e')
      (ap (take 63) (regroup prefix common rest (b'_' ∷ id_suffix id))
        ∙ take-append 63 start (rest ++ (b'_' ∷ id_suffix id)) (rest' ++ (b'_' ∷ id_suffix id'))
            lengths
        ∙ sym (ap (take 63) (regroup prefix common rest' (b'_' ∷ id_suffix id'))))
