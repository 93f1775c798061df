-- ===== src/Tests/Engines.antt =====
-- engine/engine.go on concrete inputs.
use go_search.Base.{ℕ, ◌≡◌, refl, true, some, none, [], ◌∷◌, codes, same, arith, ltb, false}
use go_search.Base.Map.{lookup, insert}
use go_search.Query.Clause.{build, add_should, new_builder}
use go_search.Engine.Document.{Document}
use go_search.Engine.Search.{search}
use go_search.Engine.Search.Hits.{has_hit}
use go_search.Base.Float.{Float64}
use go_search.Storage.Memory.{
  MemoryStore, new_memory, memory_put, memory_key_value, memory-IsKeyValue, memory_has,
}
use go_search.Index.Inverted.{new_index, add, delete_posting}
use go_search.Index.FieldIndex.{new_field_index}
use go_search.Engine.Schema.{new_schema, text}
use go_search.Engine.State.{Settings, Engine, searcher_of, delete_document, index_doc}
use go_search.Engine.State.Found.{IsCodec, search-index_doc}
use go_search.Engine.State.Indexed.{IsTextField}
use go_search.Index.Inverted.Reports.{Enumerates}
use go_search.Engine.State.Deleted.{search-delete_document}
use go_search.Tests.Sorters.{insertion}
use go_search.Tests.Searches.{word_doc, two_docs, red_auto, insertion-KeepsHits, word_field}

-- An engine with an empty memory store and no log.
abbrev natural : Float64
natural = record { F = ℕ; lt = ltb; zero = 0; pos_inf = 100; neg_inf = 0 }

-- Any document is written as one byte, and the byte read as the same one.
abbrev red_car : Document ℕ
red_car = word_doc (codes "2") (codes "red car")

abbrev plain_settings : Settings natural
plain_settings = record {
  sorting = insertion;
  tokens_of = λ text. record { term = codes "red"; position = 0 } ∷ [];
  parse_float = λ text. none;
  parse_int = λ text. none;
  parse_bool = λ text. none;
  one = 1;
  marshal = λ doc. some (0 ∷ []);
  unmarshal = λ raw. some red_car;
  compile = λ regex. none;
  synonyms = [];
  bm25_params = two_docs.bm25_params;
  ops = two_docs.ops;
}

abbrev new_engine : Engine natural MemoryStore
new_engine = record {
  index = new_index natural 0 0 0;
  field_index = new_field_index ℕ;
  storage = memory_put (codes "2") (0 ∷ []) new_memory;
  vectors = [];
  doc_lengths = [];
  schema = new_schema;
  wal = none;
}

search-delete_document_example :
    has_hit
      (codes "2")
      (search
        (searcher_of plain_settings memory_key_value []
          (delete_document plain_settings memory_key_value true (codes "2") new_engine))
        insertion
        red_auto
        5
        none).hits
    ≡ false
search-delete_document_example =
    search-delete_document plain_settings memory_key_value new_engine true (codes "2") [] red_auto 5
      none memory-IsKeyValue insertion-KeepsHits

plain-IsCodec : IsCodec plain_settings
plain-IsCodec = record { reads = λ doc raw m. (red_car, refl) }

abbrev text_engine : Engine natural MemoryStore
text_engine = record new_engine {
  schema = record {
    fields = (codes "t", record { type = text; index = true; store = true; explicit = true }) ∷ [];
  };
}

text_field : IsTextField (codes "t") text_engine
unfolding lookup same
text_field = record {
  mapping = record { type = text; index = true; store = true; explicit = true };
  mapped = refl;
  type_is = refl;
  is_indexed = refl;
  is_explicit = refl;
}

no_segments :
    Enumerates []
      (index_doc plain_settings memory_key_value true red_car text_engine).0.index.segments
unfolding index_doc lookup same memory_has memory_put insert add delete_posting
no_segments = λ seg. (λ m. m, λ m. m)

no_error : (index_doc plain_settings memory_key_value true red_car text_engine).1 ≡ true
unfolding index_doc lookup same memory_has memory_put insert add delete_posting
no_error = refl

red_field : lookup (codes "t") red_car.fields ≡ some (word_field (codes "red car"))
unfolding lookup same
red_field = refl

search-index_doc_example :
    has_hit
      (codes "2")
      (search
        (searcher_of plain_settings memory_key_value []
          (index_doc plain_settings memory_key_value true red_car text_engine).0)
        insertion
        (build (add_should (codes "t") (codes "red") (new_builder ℕ)))
        0
        none).hits
    ≡ true
unfolding same
search-index_doc_example =
    search-index_doc plain_settings memory_key_value text_engine red_car (codes "t") (codes "red")
      (word_field (codes "red car")) [] memory-IsKeyValue insertion-KeepsHits plain-IsCodec refl
      (record { buffer = tt; segments = tt }) text_field (omega arith) red_field refl no_error
      no_segments
