-- ===== src/Text/Patterns.antt =====
-- The regular expressions of the worker, as tests on code units.
use dsx_control_plane.Base.{ℕ, zero, suc, Bool, true, false, ◌&&◌, ◌||◌, List, [], ◌∷◌, leb, eqb}
use dsx_control_plane.Base.Lists.{length, every}

-- [a-z0-9]
unfoldable pub is_lower_alnum : ℕ → Bool
is_lower_alnum c = leb b'a' c && leb c b'z' || leb b'0' c && leb c b'9'

-- [A-Za-z0-9]
unfoldable pub is_alnum : ℕ → Bool
unfolding is_lower_alnum
is_alnum c = is_lower_alnum c || leb b'A' c && leb c b'Z'

-- [a-z0-9-]
unfoldable pub is_slug_unit : ℕ → Bool
unfolding is_lower_alnum
is_slug_unit c = is_lower_alnum c || eqb c b'-'

-- [a-z0-9._-]
unfoldable pub is_name_unit : ℕ → Bool
unfolding is_lower_alnum
is_name_unit c = is_lower_alnum c || eqb c b'.' || eqb c b'_' || eqb c b'-'

-- [A-Za-z0-9._:-]
unfoldable pub is_key_unit : ℕ → Bool
unfolding is_alnum
is_key_unit c = is_alnum c || eqb c b'.' || eqb c b'_' || eqb c b':' || eqb c b'-'

-- [a-z0-9_]
unfoldable pub is_database_unit : ℕ → Bool
unfolding is_lower_alnum
is_database_unit c = is_lower_alnum c || eqb c b'_'

-- ^ first rest{lo,hi} $
unfoldable pub head_and_tail : (ℕ → Bool) → (ℕ → Bool) → ℕ → ℕ → List ℕ → Bool
unfolding every
head_and_tail first rest lo hi [] = false
head_and_tail first rest lo hi (c ∷ s) =
    first c && leb lo (length s) && leb (length s) hi && every rest s

unfoldable pub last_is : (ℕ → Bool) → List ℕ → Bool
last_is p [] = false
last_is p (c ∷ []) = p c
last_is p (c ∷ d ∷ s) = last_is p (d ∷ s)

-- SAFE_SLUG: ^[a-z0-9][a-z0-9-]{0,62}[a-z0-9]$
unfoldable pub safe_slug : List ℕ → Bool
unfolding head_and_tail is_slug_unit last_is
safe_slug s = head_and_tail is_lower_alnum is_slug_unit 1 63 s && last_is is_lower_alnum s

-- SAFE_NAME: ^[a-z0-9][a-z0-9._-]{0,63}$
unfoldable pub safe_name : List ℕ → Bool
unfolding head_and_tail is_name_unit
safe_name = head_and_tail is_lower_alnum is_name_unit 0 63

-- SAFE_TEMPLATE_ID: ^[a-z0-9][a-z0-9._-]{0,95}$
unfoldable pub safe_template_id : List ℕ → Bool
unfolding head_and_tail is_name_unit
safe_template_id = head_and_tail is_lower_alnum is_name_unit 0 95

-- SAFE_IDEMPOTENCY_KEY: ^[A-Za-z0-9][A-Za-z0-9._:-]{7,127}$
unfoldable pub safe_idempotency_key : List ℕ → Bool
unfolding head_and_tail is_key_unit
safe_idempotency_key = head_and_tail is_alnum is_key_unit 7 127

-- SAFE_CODE: ^[a-z0-9][a-z0-9._-]{0,119}$
unfoldable pub safe_code : List ℕ → Bool
unfolding head_and_tail is_name_unit
safe_code = head_and_tail is_lower_alnum is_name_unit 0 119

-- SAFE_DATABASE: ^[a-z][a-z0-9_]{2,62}$
unfoldable pub safe_database : List ℕ → Bool
unfolding head_and_tail is_database_unit
safe_database = head_and_tail (λ c. leb b'a' c && leb c b'z') is_database_unit 2 62

-- SAFE_MODULE: ^[a-zA-Z0-9_]{1,120}$
unfoldable pub safe_module : List ℕ → Bool
unfolding every is_alnum
safe_module s = leb 1 (length s) && leb (length s) 120 && every (λ c. is_alnum c || eqb c b'_') s

-- [0-9a-f], with the flag i.
unfoldable pub is_hex_digit : ℕ → Bool
is_hex_digit c = leb b'0' c && leb c b'9' || leb b'a' c && leb c b'f' || leb b'A' c && leb c b'F'

-- A pattern of one test for each unit.
unfoldable pub matches : List (ℕ → Bool) → List ℕ → Bool
matches [] [] = true
matches [] (c ∷ s) = false
matches (p ∷ ps) [] = false
matches (p ∷ ps) (c ∷ s) = p c && matches ps s

abbrev times : ℕ → (ℕ → Bool) → List (ℕ → Bool) → List (ℕ → Bool)
times zero p ps = ps
times (suc n) p ps = p ∷ times n p ps

abbrev dash : ℕ → Bool
dash c = eqb c b'-'

abbrev is_variant : ℕ → Bool
is_variant c = eqb c b'8' || eqb c b'9' || eqb c b'a' || eqb c b'b' || eqb c b'A' || eqb c b'B'

-- SAFE_UUID: ^[0-9a-f]{8}-[0-9a-f]{4}-[1-5][0-9a-f]{3}-[89ab][0-9a-f]{3}-[0-9a-f]{12}$, flag i
unfoldable pub safe_uuid : List ℕ → Bool
unfolding matches is_hex_digit
safe_uuid = matches (
    times 8 is_hex_digit (
      dash
      ∷ times 4 is_hex_digit (
          dash
          ∷ (λ c. leb b'1' c && leb c b'5')
          ∷ times 3 is_hex_digit
              (dash ∷ is_variant ∷ times 3 is_hex_digit (dash ∷ times 12 is_hex_digit [])))))

-- [0-9a-f]
unfoldable pub is_lower_hex : ℕ → Bool
is_lower_hex c = leb b'0' c && leb c b'9' || leb b'a' c && leb c b'f'
