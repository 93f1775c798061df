-- ===== src/Tests/Pages.antt =====
-- engine/docstore.go and the pages of engine/search.go on concrete inputs.
use go_search.Base.{ℕ, ◌≡◌, refl, none, List, [], ◌∷◌, ◌++◌, codes, same, Str}
use go_search.Base.Map.{lookup}
use go_search.Engine.Document.{Result}
use go_search.Engine.Paging.{SearchCursor, SortClause, asc}
use go_search.Engine.DocStore.{
  ChunkMeta, put_call, delete_call, do_calls, new_doc_store, parent_of_chunk, DocCall,
}
use go_search.Engine.DocStore.Runs.{lookup-run, chunk_after, parent_in}

abbrev hit : Str → Result ℕ
hit id = record {
  id = codes "d" ++ id;
  fields = (codes "price", record { value = id; boost = 1; vector = none }) ∷ [];
  score = 0;
  highlights = [];
}

abbrev page_hits : List (Result ℕ)
page_hits = hit (codes "1") ∷ hit (codes "2") ∷ hit (codes "3") ∷ hit (codes "4") ∷ []

abbrev by_price : SortClause
by_price = record { field = codes "price"; order = asc }

abbrev after_two : SearchCursor
after_two = record { sort_value = codes "2"; doc_id = codes "d2" }

abbrev chunk : Str → Str → ChunkMeta ℕ
chunk id parent_id = record {
  chunk_id = id;
  parent_id = parent_id;
  field = codes "body";
  meta = record { file_path = codes "f"; offset = 0; length = 3; boost = 1 };
}

abbrev chunk_calls : List (DocCall ℕ)
chunk_calls =
    put_call (chunk (codes "c1") (codes "p"))
    ∷ put_call (chunk (codes "c2") (codes "q"))
    ∷ delete_call (codes "p")
    ∷ []

lookup-run_example :
    (lookup (codes "c1") (do_calls chunk_calls (new_doc_store ℕ)).chunks
      ≡ chunk_after (codes "c1") chunk_calls none)
    × (parent_of_chunk (codes "c1") (do_calls chunk_calls (new_doc_store ℕ))
        ≡ parent_in (chunk_after (codes "c1") chunk_calls none))
lookup-run_example = lookup-run chunk_calls (codes "c1")

chunk_gone : chunk_after (codes "c1") chunk_calls none ≡ none
unfolding same
chunk_gone = refl
