-- ===== src/Engine/State/Deleted.antt =====
-- What engine/engine.go keeps of a document that was deleted.
use go_search.Base.{◌≡◌, ◌∙◌, ℕ, Bool, false, Option, none, List, Str, same_refl}
use go_search.Base.Float.{Float64}
use go_search.Storage.KeyValue.{KeyValue, IsKeyValue}
use go_search.Index.Segment.{Segment}
use go_search.Query.Clause.{Query}
use go_search.Engine.Paging.{SearchOptions}
use go_search.Engine.State.{
  Settings, Engine, delete_document, searcher_of, append_wal, delete_entry,
}
use go_search.Engine.Search.{search}
use go_search.Engine.Search.Hits.{has_hit, KeepsHits}
use go_search.Engine.Search.Stored.{has_hit-search_unstored}

-- After `Delete` no search returns the document, for any query, options and limit, by either path
-- of `Search`, and whether or not the append to the log succeeds. The storage keeps its promises,
-- and the sorting keeps the results that it is given.
pub search-delete_document :
    {fl : Float64} {S : Type 0} (cfg : Settings fl) (kv : KeyValue S) (e : Engine fl S)
    (wal_ok : Bool) (id : Str) (order : List Segment) (query : Query fl.F) (top_k : ℕ)
    (opts : Option SearchOptions)
    → IsKeyValue kv
    → KeepsHits cfg.sorting fl.F
    → has_hit id
        (search
          (searcher_of cfg kv order (delete_document cfg kv wal_ok id e))
          cfg.sorting
          query
          top_k
          opts).hits
      ≡ false
unfolding delete_document
search-delete_document cfg kv e wal_ok id order query top_k opts lawful k =
    let logged = append_wal cfg kv wal_ok (delete_entry id) e in
    let gone : kv.get id (kv.delete id logged.storage) ≡ none =
      lawful.get-delete id id logged.storage ∙ rw (same_refl id) in
    has_hit-search_unstored (searcher_of cfg kv order (delete_document cfg kv wal_ok id e))
      cfg.sorting query top_k opts id k (rw gone)
