-- ===== src/Tests/Schemas.antt =====
-- engine/mapping.go on concrete inputs.
use go_search.Base.{length, ◌==◌, ◌≡◌, Bool, true, false, some, List, [], ◌∷◌, Str, codes}
use go_search.Engine.Schema.{FieldMapping, keyword, get_field, new_schema, set_field}
use go_search.Engine.Schema.Promotion.{
  resolve_all, types_of, summary, get_field-resolve_all, get_field-set_field,
}

-- A text of two characters is a float here.
abbrev looks_float : Str → Bool
looks_float s = length s == 2

abbrev pairs : List (Str × Str)
pairs = (codes "size", codes "12") ∷ (codes "name", codes "x") ∷ (codes "size", codes "big") ∷ []

get_field-resolve_all_example :
    get_field (codes "size") (resolve_all looks_float pairs new_schema)
    ≡ summary looks_float (types_of looks_float (codes "size") pairs)
get_field-resolve_all_example = get_field-resolve_all looks_float pairs (codes "size")

abbrev set_mapping : FieldMapping
set_mapping = record { type = keyword; index = true; store = false; explicit = false }

get_field-set_field_example :
    get_field
      (codes "size")
      (resolve_all looks_float pairs (set_field (codes "size") set_mapping new_schema))
    ≡ some (record set_mapping { explicit = true })
get_field-set_field_example =
    get_field-set_field looks_float pairs (codes "size") set_mapping new_schema
