-- ===== src/Json.antt =====
-- JSON values as the worker reads them: request bodies, and the text columns that it parses
-- (`parseObject`, `nestedNumber`, `stringValue` of deploy/cloudflare/src/provisioning.ts).
-- An object keeps one property for each name, as `JSON.parse` does. Numbers are the natural ones.
use dsx_control_plane.Base.{ℕ, Bool, Option, none, some, List, [], ◌∷◌, if◌then◌else◌}
use dsx_control_plane.Text.{Text, ◌==◌, trim, slice}

mutual
  pub data Json : Type 0 where
    null : Json
    bool : Bool → Json
    number : ℕ → Json
    str : Text → Json
    array : Elements → Json
    object : Fields → Json

  pub data Elements : Type 0 where
    nil : Elements
    cons : Json → Elements → Elements

  pub data Fields : Type 0 where
    end : Fields
    field : Text → Json → Fields → Fields

-- `object[key]`; `none` is `undefined`.
unfoldable pub get : Fields → Text → Option Json
get end key = none
get (field name value fs) key = if name == key then some value else get fs key

abbrev pub elements : Elements → List Json
elements nil = []
elements (cons v vs) = v ∷ elements vs

-- `parseObject(value)`; `parse` is `JSON.parse`, with `none` where it throws.
abbrev of_object : Option Json → Fields
of_object (some (object fs)) = fs
of_object _ = end

unfoldable pub parse_object : (Text → Option Json) → Option Json → Fields
parse_object parse (some (object fs)) = fs
parse_object parse (some (str s)) = of_object (parse s)
parse_object parse _ = end

-- `nestedNumber`
unfoldable pub nested_number : Fields → Text → Option ℕ
unfolding get
nested_number fs key = elim (get fs key) [ some (number n) ↦ some n | _ ↦ none ]

-- `stringValue(value, maxLength)`
unfoldable pub string_value : Option Json → ℕ → Text
string_value (some (str s)) max_length = slice max_length (trim s)
string_value _ max_length = []

-- `value ?? fallback`
unfoldable pub or_default : Option Json → Json → Option Json
or_default none fallback = some fallback
or_default (some null) fallback = some fallback
or_default (some v) fallback = some v
