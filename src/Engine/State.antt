-- ===== src/Engine/State.antt =====
-- engine/engine.go: the state of an engine, `Index`, `Delete` and their write-ahead log. A call holds
-- the engine's lock, so it is one step. `encoding/json`, package strconv and the analyzer are
-- arguments.
pub mod Deleted
pub mod Kept
pub mod Indexed
pub mod Found
use go_search.Base.{
  ℕ, ◌+◌, Bool, true, false, not, ◌&&◌, Option, none, some, List, [], ◌∷◌, ◌++◌, if◌then◌else◌, Str,
  length, same, take, ◌==◌, keep, is_some,
}
use go_search.Base.Bytes.{Bytes}
use go_search.Base.Int.{ℤ}
use go_search.Base.Map.{Map, lookup, lookup_or, insert, delete}
use go_search.Base.Float.{Float64}
use go_search.Scoring.{FloatOps, Params}
use go_search.Analysis.Token.{Token}
use go_search.Index.Segment.{Segment}
use go_search.Index.KdTree.{Sorting}
use go_search.Index.Inverted.{
  Index, add, add_raw, delete_posting, add_numeric, delete_numeric, multi_range_query,
  lookup_postings,
}
use go_search.Index.FieldIndex.{FieldIndex, add_field, sort_fields, delete_field, sort_values}
use go_search.Storage.KeyValue.{KeyValue}
use go_search.Engine.Schema.{
  Schema, FieldMapping, FieldType, text, keyword, integer, float, boolean, skip, resolve, same_type,
}
use go_search.Engine.Document.{Document, Field}
use go_search.Engine.Expand.{SynonymMap}
use go_search.Engine.Searcher.{Searcher}

-- What the engine is set up with, and the packages it calls: the numbers that strconv reads of a
-- text, as float64s, and JSON, where `none` is an error.
pub record Settings (fl : Float64) : Type 1 where
  pub sorting : Sorting
  pub tokens_of : Str → List Token
  pub parse_float : Str → Option fl.F
  pub parse_int : Str → Option fl.F
  pub parse_bool : Str → Option Bool
  pub one : fl.F
  pub marshal : Document fl.F → Option Bytes
  pub unmarshal : Bytes → Option (Document fl.F)
  pub compile : Str → Option (Str → Bool)
  pub synonyms : SynonymMap
  pub bm25_params : Params fl.F
  pub ops : FloatOps fl.F

pub data WalEntry (F : Type 0) : Type 0 where
  index_entry : Document F → WalEntry F
  delete_entry : Str → WalEntry F

-- `wal` is the log that `Append` writes; `none` is an engine without one.
pub record Engine (fl : Float64) (S : Type 0) : Type 0 where
  pub index : Index fl
  pub field_index : FieldIndex fl.F
  pub storage : S
  pub vectors : Map (Map (List fl.F))
  pub doc_lengths : Map ℕ
  pub schema : Schema
  pub wal : Option (List (WalEntry fl.F))

-- `strings.HasPrefix(k, id+":")`
abbrev pub is_length_of : Str → Str → Bool
is_length_of id k = same (take (length id + 1) k) (id ++ (b':' ∷ []))

module _ {fl : Float64} {S : Type 0} (cfg : Settings fl) (kv : KeyValue S) where
  abbrev pub add_number : Str → Str → Option fl.F → Engine fl S → Engine fl S
  add_number name doc_id none e = e
  add_number name doc_id (some v) e = record e { index = add_numeric fl name doc_id v e.index }

  abbrev pub add_field_value : Str → Str → Str → Bool → Engine fl S → Engine fl S
  add_field_value name doc_id value is_numeric e = record e {
    field_index =
        sort_fields fl cfg.sorting
          (add_field fl cfg.parse_float name doc_id value is_numeric e.field_index);
  }

  abbrev pub add_term : Str → Str → Str → Engine fl S → Engine fl S
  add_term name doc_id value e = record e {
    index = add_raw fl cfg.sorting doc_id name value e.index;
  }

  -- `AddRaw`, and what the number in the value is used for, if there is one.
  abbrev pub add_parsed : Str → Str → Str → Option fl.F → Engine fl S → Engine fl S
  add_parsed name doc_id value number e =
      let e' = add_number name doc_id number (add_term name doc_id value e) in
      if is_some number then add_field_value name doc_id value true e' else e'

  abbrev pub number_of : Bool → fl.F
  number_of b = if b then cfg.one else fl.zero

  -- The `switch` of `indexInternal`.
  unfoldable pub index_value : FieldType → Str → Str → Str → Engine fl S → Engine fl S
  index_value integer name doc_id value e = add_parsed name doc_id value (cfg.parse_int value) e
  index_value float name doc_id value e = add_parsed name doc_id value (cfg.parse_float value) e
  index_value boolean name doc_id value e =
      add_number name doc_id
        (elim (cfg.parse_bool value) [ none ↦ none | some b ↦ some (number_of b) ])
        (add_term name doc_id value e)
  index_value keyword name doc_id value e =
      add_field_value name doc_id value false (add_term name doc_id value e)
  index_value text name doc_id value e =
      add_field_value name doc_id value false
        (record e { index = add fl cfg.sorting doc_id (some name) (cfg.tokens_of value) e.index })
  index_value skip name doc_id value e = e

  abbrev pub set_vector : Str → Str → Option (List fl.F) → Engine fl S → Engine fl S
  set_vector name doc_id none e = e
  set_vector name doc_id (some vector) e = record e {
    vectors = insert doc_id (insert name vector (lookup_or [] doc_id e.vectors)) e.vectors;
  }

  abbrev pub add_length : Str → Str → Str → Engine fl S → Engine fl S
  add_length name doc_id value e =
      let key = doc_id ++ (b':' ∷ name) in
      record e {
        doc_lengths =
            insert key (lookup_or 0 key e.doc_lengths + length (cfg.tokens_of value)) e.doc_lengths;
      }

  -- One field, and the loop over the fields: the engine and the fields to store.
  unfoldable pub index_field :
      Str → Str → Field fl.F → Engine fl S × Map (Field fl.F) → Engine fl S × Map (Field fl.F)
  unfolding resolve index_value
  index_field doc_id name field (e, stored) =
      let (schema, fm) = resolve (λ v. is_some (cfg.parse_float v)) name field.value e.schema in
      let e' = record e { schema = schema } in
      let indexed = if fm.index then index_value fm.type name doc_id field.value e' else e' in
      if same_type fm.type skip then (e', stored) else (
        add_length name doc_id field.value (set_vector name doc_id field.vector indexed),
        if fm.store then insert name field stored else stored,
      )

  unfoldable pub index_fields :
      Str → Map (Field fl.F) → Engine fl S × Map (Field fl.F) → Engine fl S × Map (Field fl.F)
  unfolding index_field
  index_fields doc_id [] state = state
  index_fields doc_id ((name, field) ∷ fields) state =
      index_fields doc_id fields (index_field doc_id name field state)

  -- The engine, and whether there was no error.
  unfoldable pub index_internal : Document fl.F → Engine fl S → Engine fl S × Bool
  unfolding index_fields
  index_internal doc e =
      let (e', stored) = index_fields doc.id doc.fields (e, []) in
      elim (cfg.marshal (record { id = doc.id; fields = stored })) [
        | none ↦ (e', false)
        | some document_json ↦
            (record e' { storage = kv.put doc.id document_json e'.storage }, true)
      ]

  -- `Append`, given whether it succeeds; what a failed one leaves is not a whole record.
  abbrev pub log_with :
      Option (List (WalEntry fl.F)) → Bool → WalEntry fl.F → Option (List (WalEntry fl.F))
  log_with none ok entry = none
  log_with (some log) ok entry = if ok then some (log ++ (entry ∷ [])) else some log

  abbrev pub append_wal : Bool → WalEntry fl.F → Engine fl S → Engine fl S
  append_wal ok entry e = record e { wal = log_with e.wal ok entry }

  unfoldable pub replace_doc : Str → Engine fl S → Engine fl S
  replace_doc id e =
      if kv.has id e.storage
      then record e { index = delete_posting fl id e.index; storage = kv.delete id e.storage }
      else e

  -- `Index`; `wal_ok` is whether the append succeeds.
  unfoldable pub index_doc : Bool → Document fl.F → Engine fl S → Engine fl S × Bool
  unfolding index_internal replace_doc
  index_doc wal_ok doc e =
      if length doc.id == 0
      then (e, false)
      else if is_some e.wal && not wal_ok
      then (e, false)
      else index_internal doc (replace_doc doc.id (append_wal wal_ok (index_entry doc) e))

  unfoldable pub delete_internal : Str → Engine fl S → Engine fl S
  delete_internal id e = record e {
    doc_lengths = keep (λ kv. not (is_length_of id kv.0)) e.doc_lengths;
    index = delete_numeric fl id (delete_posting fl id e.index);
    field_index = delete_field id e.field_index;
    storage = kv.delete id e.storage;
  }

  -- `Delete`: it goes on where the append fails.
  unfoldable pub delete_document : Bool → Str → Engine fl S → Engine fl S
  unfolding delete_internal
  delete_document wal_ok id e = delete_internal id (append_wal wal_ok (delete_entry id) e)

  -- `entryToDocument`: of a field only the value is read.
  abbrev pub entry_fields : Map (Field fl.F) → Map (Field fl.F)
  entry_fields [] = []
  entry_fields ((name, field) ∷ fields) =
      (name, record { value = field.value; boost = fl.zero; vector = none }) ∷ entry_fields fields

  -- The loop of `replayWAL` over the entries of the log.
  unfoldable pub replay_wal : List (WalEntry fl.F) → Engine fl S → Engine fl S
  unfolding index_internal delete_internal
  replay_wal [] e = e
  replay_wal (index_entry doc ∷ log) e =
      replay_wal log
        (index_internal (record { id = doc.id; fields = entry_fields doc.fields })
          (if kv.has doc.id e.storage then delete_internal doc.id e else e)).0
  replay_wal (delete_entry id ∷ log) e = replay_wal log (delete_internal id e)

  -- What a search reads of the engine, with the segments in the order in which they report.
  abbrev pub searcher_of : List Segment → Engine fl S → Searcher fl.F
  searcher_of order e = record {
    postings_of = lookup_postings fl e.index order;
    range_query = λ bounds. multi_range_query fl bounds e.index;
    sorted_entries = λ field desc. elim (sort_values field desc none e.field_index) [
      | [] ↦ none
      | entry ∷ entries ↦ some (entry ∷ entries)
    ];
    stored = λ id. elim (kv.get id e.storage) [ none ↦ none | some raw ↦ cfg.unmarshal raw ];
    doc_count = e.index.doc_count;
    doc_lengths = e.doc_lengths;
    schema = e.schema;
    synonyms = cfg.synonyms;
    bm25_params = cfg.bm25_params;
    tokens_of = cfg.tokens_of;
    compile = cfg.compile;
    parse_float = cfg.parse_float;
    less = fl.lt;
    ops = cfg.ops;
  }
