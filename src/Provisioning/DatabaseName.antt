-- ===== src/Provisioning/DatabaseName.antt =====
-- `expectedDatabaseName`, `parseModules` and `buildProvisionOperationPayload` of
-- deploy/cloudflare/src/nodeOperations.ts.
use dsx_control_plane.Base.{
  ℕ, Bool, ◌&&◌, ◌||◌, Option, some, List, [], ◌∷◌, ◌++◌, map, leb, eqb, if◌then◌else◌,
}
use dsx_control_plane.Base.Lists.{select, some_of, take}
use dsx_control_plane.Text.{Text, ◌==◌, text, is_empty, trim, to_lower_case, slice}
use dsx_control_plane.Text.Patterns.{is_database_unit, safe_module}
use dsx_control_plane.Json.{Json, str, array, elements}
use dsx_control_plane.Db.States.{sector_word, kind_word}
use dsx_control_plane.Db.Rows.{Template, Tenant, Payload, word, text as txt, count, texts}

abbrev pub underscore : ℕ → ℕ
underscore c = if eqb c b'-' then b'_' else c

-- [a-f0-9]
abbrev pub is_hex_unit : ℕ → Bool
is_hex_unit c = leb b'a' c && leb c b'f' || leb b'0' c && leb c b'9'

unfoldable pub safe_slug_part : Text → Text
unfolding to_lower_case select is_database_unit
safe_slug_part slug = select is_database_unit (map underscore (to_lower_case slug))

unfoldable pub id_suffix : Text → Text
unfolding to_lower_case select is_empty
id_suffix tenant_id =
    let hex = slice 8 (select is_hex_unit (to_lower_case tenant_id)) in
    if is_empty hex then text "tenant" else hex

unfoldable pub expected_database_name : Text → Text → Text → Text
unfolding safe_slug_part id_suffix
expected_database_name database_prefix tenant_slug tenant_id =
    slice 63
      (database_prefix ++ (b'_' ∷ (safe_slug_part tenant_slug ++ (b'_' ∷ id_suffix tenant_id))))

unfoldable pub trimmed_texts : List Json → List Text
unfolding trim
trimmed_texts [] = []
trimmed_texts (str s ∷ vs) = trim s ∷ trimmed_texts vs
trimmed_texts (_ ∷ vs) = trimmed_texts vs

-- `[...new Set(items)]`: the first of equal items, in order. `seen` is what the set holds.
unfoldable pub distinct : List Text → List Text → List Text
unfolding some_of ◌==◌
distinct seen [] = []
distinct seen (s ∷ ss) =
    let rest = distinct (s ∷ seen) ss in if some_of (λ t. t == s) seen then rest else s ∷ rest

unfoldable pub parse_modules : (Text → Option Json) → Text → List Text
unfolding trimmed_texts distinct select safe_module
parse_modules parse raw = elim (parse raw) [
  | some (array vs) ↦ take 100 (distinct [] (select safe_module (trimmed_texts (elements vs))))
  | _ ↦ []
]

unfoldable pub provision_payload : (Text → Option Json) → Tenant → Template → Payload
unfolding expected_database_name parse_modules
provision_payload parse t p =
    ("tenant_id", txt t.id)
    ∷ ("tenant_slug", txt t.slug)
    ∷ ("sector", word (sector_word t.sector))
    ∷ ("environment_kind", word (kind_word t.environment_kind))
    ∷ ("template_id", txt p.id)
    ∷ ("template_version", count p.version)
    ∷ ("odoo_major", count p.odoo_major)
    ∷ ("database_name", txt (expected_database_name p.database_prefix t.slug t.id))
    ∷ ("modules", texts (parse_modules parse p.module_manifest))
    ∷ []
