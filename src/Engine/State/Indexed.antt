-- ===== src/Engine/State/Indexed.antt =====
-- What `indexInternal` of engine/engine.go does to the index and the schema.
use go_search.Base.{
  ◌≡◌, refl, sym, ap, ◌∙◌, true, Option, none, some, List, [], ◌∷◌, Str, same, same_iff, inl, inr,
  Bool-cases, is_some, if◌then◌else◌,
}
use mathlib.Core.Path.{subst}
use go_search.Base.Map.{Map, lookup, lookup-insert}
use go_search.Base.Float.{Float64}
use go_search.Analysis.Token.{Token}
use go_search.Index.Inverted.{Index, add, add_raw, add_numeric}
use go_search.Engine.Schema.{
  Schema, FieldMapping, FieldType, text, keyword, integer, float, boolean, skip, resolve,
  resolve_known, same_type,
}
use go_search.Engine.Document.{Field}
use go_search.Storage.KeyValue.{KeyValue}
use go_search.Engine.State.{
  Settings, Engine, index_value, index_field, index_fields, add_parsed, add_number, add_term,
  set_vector,
}

-- A field with an explicit mapping as an indexed text.
pub record IsTextField {fl : Float64} {S : Type 0} (name : Str) (e : Engine fl S) : Type 0 where
  pub mapping : FieldMapping
  pub mapped : lookup name e.schema.fields ≡ some mapping
  pub type_is : mapping.type ≡ text
  pub is_indexed : mapping.index ≡ true
  pub is_explicit : mapping.explicit ≡ true

module _ {fl : Float64} {S : Type 0} (cfg : Settings fl) (kv : KeyValue S) (d : Str) where
  -- A property of the index that the calls for this document keep.
  pub record IsKept (P : Index fl → Type 0) : Type 0 where
    pub add_text :
        (field : Option Str) (tokens : List Token) (idx : Index fl)
        → P idx
        → P (add fl cfg.sorting d field tokens idx)
    pub add_value :
        (field value : Str) (idx : Index fl) → P idx → P (add_raw fl cfg.sorting d field value idx)
    pub add_num :
        (field : Str) (v : fl.F) (idx : Index fl) → P idx → P (add_numeric fl field d v idx)

  module _ (P : Index fl → Type 0) (k : IsKept P) where
    add_number-kept :
        (name : Str) (number : Option fl.F) (e : Engine fl S)
        → P e.index
        → P (add_number cfg kv name d number e).index
    add_number-kept name none e p = p
    add_number-kept name (some v) e p = k.add_num name v e.index p

    add_parsed-kept :
        (name value : Str) (number : Option fl.F) (e : Engine fl S)
        → P e.index
        → P (add_parsed cfg kv name d value number e).index
    add_parsed-kept name value none e p = k.add_value name value e.index p
    add_parsed-kept name value (some v) e p = k.add_num name v _ (k.add_value name value e.index p)

    pub index_value-kept :
        (type : FieldType) (name value : Str) (e : Engine fl S)
        → P e.index
        → P (index_value cfg kv type name d value e).index
    unfolding index_value
    index_value-kept integer name value e p = add_parsed-kept name value (cfg.parse_int value) e p
    index_value-kept float name value e p = add_parsed-kept name value (cfg.parse_float value) e p
    index_value-kept boolean name value e p =
        add_number-kept name _ (add_term cfg kv name d value e) (k.add_value name value e.index p)
    index_value-kept keyword name value e p = k.add_value name value e.index p
    index_value-kept text name value e p = k.add_text (some name) (cfg.tokens_of value) e.index p
    index_value-kept skip name value e p = p

  -- Indexing a value leaves the schema alone.
  add_number-schema :
      (name : Str) (number : Option fl.F) (e : Engine fl S)
      → (add_number cfg kv name d number e).schema ≡ e.schema
  add_number-schema name none e = refl
  add_number-schema name (some v) e = refl

  add_parsed-schema :
      (name value : Str) (number : Option fl.F) (e : Engine fl S)
      → (add_parsed cfg kv name d value number e).schema ≡ e.schema
  add_parsed-schema name value none e = refl
  add_parsed-schema name value (some v) e = refl

  index_value-schema :
      (type : FieldType) (name value : Str) (e : Engine fl S)
      → (index_value cfg kv type name d value e).schema ≡ e.schema
  unfolding index_value
  index_value-schema integer name value e = add_parsed-schema name value (cfg.parse_int value) e
  index_value-schema float name value e = add_parsed-schema name value (cfg.parse_float value) e
  index_value-schema boolean name value e =
      add_number-schema name _ (add_term cfg kv name d value e)
  index_value-schema keyword name value e = refl
  index_value-schema text name value e = refl
  index_value-schema skip name value e = refl

  set_vector-frame :
      (name : Str) (vector : Option (List fl.F)) (e : Engine fl S)
      → ((set_vector cfg kv name d vector e).index ≡ e.index)
        × ((set_vector cfg kv name d vector e).schema ≡ e.schema)
  set_vector-frame name none e = (refl, refl)
  set_vector-frame name (some v) e = (refl, refl)

  -- The mapping of a field for a value.
  abbrev pub resolved : Str → Str → Engine fl S → Schema × FieldMapping
  resolved name value e = resolve (λ v. is_some (cfg.parse_float v)) name value e.schema

  abbrev indexed : FieldMapping → Str → Str → Engine fl S → Engine fl S
  indexed fm name value e = if fm.index then index_value cfg kv fm.type name d value e else e

  pub index_field-index :
      (name : Str) (field : Field fl.F) (e : Engine fl S) (stored : Map (Field fl.F))
      → (index_field cfg kv d name field (e, stored)).0.index ≡ (
          let fm = (resolved name field.value e).1 in
          let e' = record e { schema = (resolved name field.value e).0 } in
          if same_type fm.type skip then e.index else (indexed fm name field.value e').index)
  unfolding index_field
  index_field-index name field e stored =
      let fm = (resolved name field.value e).1 in
      let e' = record e { schema = (resolved name field.value e).0 } in
      elim (Bool-cases (same_type fm.type skip)) [
        | inl q ↦ rw q
        | inr q ↦ rw q ((set_vector-frame name field.vector (indexed fm name field.value e')).0)
      ]

  pub index_field-schema :
      (name : Str) (field : Field fl.F) (e : Engine fl S) (stored : Map (Field fl.F))
      → (index_field cfg kv d name field (e, stored)).0.schema ≡ (resolved name field.value e).0
  unfolding index_field
  index_field-schema name field e stored =
      let fm = (resolved name field.value e).1 in
      let e' = record e { schema = (resolved name field.value e).0 } in
      elim (Bool-cases (same_type fm.type skip)) [
        | inl q ↦ rw q
        | inr q ↦ rw q (
            (set_vector-frame name field.vector (indexed fm name field.value e')).1
            ∙ elim (Bool-cases fm.index) [
              | inl i ↦ rw i (index_value-schema fm.type name field.value e')
              | inr i ↦ rw i
            ])
      ]

  module _ (P : Index fl → Type 0) (k : IsKept P) where
    pub index_field-kept :
        (name : Str) (field : Field fl.F) (e : Engine fl S) (stored : Map (Field fl.F))
        → P e.index
        → P (index_field cfg kv d name field (e, stored)).0.index
    index_field-kept name field e stored p =
        let fm = (resolved name field.value e).1 in
        let e' = record e { schema = (resolved name field.value e).0 } in
        subst P (sym (index_field-index name field e stored))
          (elim (Bool-cases (same_type fm.type skip)) [
            | inl q ↦
                subst P
                  (sym (ap (λ b. if b then e.index else (indexed fm name field.value e').index) q))
                  p
            | inr q ↦
                subst P
                  (sym (ap (λ b. if b then e.index else (indexed fm name field.value e').index) q))
                  (elim (Bool-cases fm.index) [
                    | inl i ↦
                        subst P
                          (sym (
                            ap
                              (λ b.
                                (if b
                                  then index_value cfg kv fm.type name d field.value e'
                                  else e').index)
                              i))
                          (index_value-kept P k fm.type name field.value e' p)
                    | inr i ↦
                        subst P
                          (sym (
                            ap
                              (λ b.
                                (if b
                                  then index_value cfg kv fm.type name d field.value e'
                                  else e').index)
                              i))
                          p
                  ])
          ])

    pub index_fields-kept :
        (fields : Map (Field fl.F)) (e : Engine fl S) (stored : Map (Field fl.F))
        → P e.index
        → P (index_fields cfg kv d fields (e, stored)).0.index
    unfolding index_fields
    index_fields-kept [] e stored p = p
    index_fields-kept ((name, field) ∷ fields) e stored p =
        let next = index_field cfg kv d name field (e, stored) in
        index_fields-kept fields next.0 next.1 (index_field-kept name field e stored p)

  resolve-explicit :
      (name n value : Str) (e : Engine fl S) (fm : FieldMapping)
      → lookup name e.schema.fields ≡ some fm
      → fm.explicit ≡ true
      → lookup name (resolved n value e).0.fields ≡ some fm
  unfolding resolve resolve_known
  resolve-explicit name n value e fm h x = elim (Bool-cases (same n name)) [
    | inl q ↦
        let at_n : lookup n e.schema.fields ≡ some fm =
          ap (λ i. lookup i e.schema.fields) ((same_iff n name).0 q) ∙ h in
        lookup-insert n name _ e.schema.fields ∙ rw (q, at_n, x)
    | inr q ↦ lookup-insert n name _ e.schema.fields ∙ rw (q, h)
  ]

  pub index_field-IsTextField :
      (name n : Str) (field : Field fl.F) (e : Engine fl S) (stored : Map (Field fl.F))
      → IsTextField name e
      → IsTextField name (index_field cfg kv d n field (e, stored)).0
  index_field-IsTextField name n field e stored t = record {
    mapping = t.mapping;
    mapped =
        ap (λ (s : Schema). lookup name s.fields) (index_field-schema n field e stored)
        ∙ resolve-explicit name n field.value e t.mapping t.mapped t.is_explicit;
    type_is = t.type_is;
    is_indexed = t.is_indexed;
    is_explicit = t.is_explicit;
  }

  -- Such a field is added as a text.
  pub index_field-text :
      (name : Str) (field : Field fl.F) (e : Engine fl S) (stored : Map (Field fl.F))
      → IsTextField name e
      → (index_field cfg kv d name field (e, stored)).0.index
        ≡ add fl cfg.sorting d (some name) (cfg.tokens_of field.value) e.index
  unfolding index_value resolve resolve_known
  index_field-text name field e stored t =
      index_field-index name field e stored ∙ rw (t.mapped, t.is_explicit, t.type_is, t.is_indexed)
