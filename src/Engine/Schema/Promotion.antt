-- ===== src/Engine/Schema/Promotion.antt =====
-- What engine/mapping.go makes of a sequence of values.
use go_search.Base.{
  ◌≡◌, refl, ap, ◌∙◌, Bool, true, ◌&&◌, Option, none, some, List, [], ◌∷◌, if◌then◌else◌, Str, same,
  same_iff, same_refl, arith, inl, inr, Bool-cases,
}
use go_search.Base.Map.{lookup, lookup-insert}
use go_search.Engine.Schema.{
  FieldType, text, FieldMapping, Schema, promoted, inferred, same_type, infer_type, resolve_known,
  resolve, get_field, new_schema, set_field,
}

module _ (is_float : Str → Bool) where
  -- `Resolve` on each pair of a field and a value in turn.
  abbrev pub resolve_all : List (Str × Str) → Schema → Schema
  resolve_all [] s = s
  resolve_all ((field, value) ∷ pairs) s = resolve_all pairs (resolve is_float field value s).0

  -- The values of one field among the pairs, by their types.
  abbrev pub types_of : Str → List (Str × Str) → List FieldType
  types_of field [] = []
  types_of field ((f, value) ∷ pairs) =
      let rest = types_of field pairs in
      if same f field then infer_type is_float value ∷ rest else rest

  -- All types agree with the first.
  abbrev pub agree : FieldType → List FieldType → Bool
  agree type [] = true
  agree type (t ∷ types) = same_type type t && agree type types

  -- The specification: nothing known, the one type there is, or text.
  abbrev pub summary : List FieldType → Option FieldMapping
  summary [] = none
  summary (type ∷ types) = some (if agree type types then inferred type else promoted)

  -- The same with a mapping to start from.
  abbrev summary_from : Option FieldMapping → List FieldType → Option FieldMapping
  summary_from none types = summary types
  summary_from (some fm) types =
      some (if fm.explicit then fm else if agree fm.type types then fm else promoted)

  agree-text :
      (type : FieldType) (types : List FieldType)
      → (if agree text types then promoted else promoted) ≡ promoted
  agree-text type types = elim (Bool-cases (agree text types)) [ inl e ↦ rw e | inr e ↦ rw e ]

  summary-step :
      (known : Option FieldMapping) (type : FieldType) (types : List FieldType)
      → summary_from (some (resolve_known is_float known type)) types
        ≡ summary_from known (type ∷ types)
  unfolding resolve_known
  summary-step none type types = ground arith
  summary-step (some fm) type types = ground (arith, agree-text type types)

  summary-nothing : (known : Option FieldMapping) → known ≡ summary_from known []
  summary-nothing none = refl
  summary-nothing (some fm) = ground arith

  lookup-resolve :
      (f value field : Str) (s : Schema)
      → lookup field (resolve is_float f value s).0.fields ≡ (
          if same f field
          then some (resolve_known is_float (lookup f s.fields) (infer_type is_float value))
          else lookup field s.fields)
  unfolding resolve
  lookup-resolve f value field s = lookup-insert f field _ s.fields

  get-resolve_all_from :
      (pairs : List (Str × Str)) (field : Str) (s : Schema)
      → lookup field (resolve_all pairs s).fields
        ≡ summary_from (lookup field s.fields) (types_of field pairs)
  get-resolve_all_from [] field s = summary-nothing (lookup field s.fields)
  get-resolve_all_from ((f, value) ∷ pairs) field s =
      get-resolve_all_from pairs field (resolve is_float f value s).0
      ∙ rw (lookup-resolve f value field s) (elim (Bool-cases (same f field)) [
        | inl e ↦ rw e (
            summary-step (lookup f s.fields) (infer_type is_float value) (types_of field pairs)
            ∙ ap
                (λ k.
                  summary_from (lookup k s.fields)
                    (infer_type is_float value ∷ types_of field pairs))
                ((same_iff f field).0 e))
        | inr e ↦ rw e
      ])

  -- After any sequence of `Resolve` calls on a new schema, `Get` of a field gives nothing if no
  -- value of it was seen, the inferred type if all its values have one type, and text otherwise,
  -- whatever the order of the values and the other fields.
  pub get_field-resolve_all :
      (pairs : List (Str × Str)) (field : Str)
      → get_field field (resolve_all pairs new_schema) ≡ summary (types_of field pairs)
  unfolding get_field lookup
  get_field-resolve_all pairs field = get-resolve_all_from pairs field new_schema

  -- A mapping that `Set` gave a field is returned by `Get` unchanged but for its explicit mark,
  -- after any sequence of `Resolve` calls.
  pub get_field-set_field :
      (pairs : List (Str × Str)) (field : Str) (fm : FieldMapping) (s : Schema)
      → get_field field (resolve_all pairs (set_field field fm s))
        ≡ some (record fm { explicit = true })
  unfolding get_field set_field
  get_field-set_field pairs field fm s =
      get-resolve_all_from pairs field (set_field field fm s)
      ∙ rw (lookup-insert field field (record fm { explicit = true }) s.fields, same_refl field)
