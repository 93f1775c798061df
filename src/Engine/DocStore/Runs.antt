-- ===== src/Engine/DocStore/Runs.antt =====
-- engine/docstore.go against the calls that were made.
use go_search.Base.{
  ◌≡◌, refl, ap, ◌∙◌, Option, none, some, List, [], ◌∷◌, if◌then◌else◌, Str, same, inl, inr,
  Option-cases,
}
use go_search.Base.Map.{lookup}
use go_search.Engine.DocStore.{
  ChunkMeta, DocStore, DocCall, put_call, delete_call, do_call, do_calls, put_chunk, delete_parent,
  parent_of_chunk, new_doc_store,
}
use go_search.Engine.DocStore.Chunks.{
  IsConsistent, put_chunk-IsConsistent, delete_parent-IsConsistent, lookup-delete_parent,
  lookup-put_chunk, new-IsConsistent,
}

-- The chunk that stands under an ID after some calls, if `old` did before them.
abbrev pub chunk_after :
    {F : Type 0} → Str → List (DocCall F) → Option (ChunkMeta F) → Option (ChunkMeta F)
chunk_after id [] old = old
chunk_after id (put_call c ∷ calls) old =
    chunk_after id calls (if same c.chunk_id id then some c else old)
chunk_after id (delete_call parent_id ∷ calls) old =
    chunk_after id calls
      (elim old [ none ↦ none | some c ↦ if same c.parent_id parent_id then none else some c ])

abbrev pub parent_in : {F : Type 0} → Option (ChunkMeta F) → Option Str
parent_in none = none
parent_in (some c) = some c.parent_id

module _ {F : Type 0} where
  do_call-IsConsistent :
      (call : DocCall F) (ds : DocStore F) → IsConsistent ds → IsConsistent (do_call call ds)
  do_call-IsConsistent (put_call c) ds k = put_chunk-IsConsistent c ds k
  do_call-IsConsistent (delete_call p) ds k = delete_parent-IsConsistent p ds k

  lookup-do_calls :
      (calls : List (DocCall F)) (ds : DocStore F) (id : Str)
      → IsConsistent ds
      → lookup id (do_calls calls ds).chunks ≡ chunk_after id calls (lookup id ds.chunks)
  lookup-do_calls [] ds id k = refl
  lookup-do_calls (put_call c ∷ calls) ds id k =
      lookup-do_calls calls (put_chunk c ds) id (put_chunk-IsConsistent c ds k)
      ∙ ap (chunk_after id calls) (lookup-put_chunk c ds id)
  lookup-do_calls (delete_call p ∷ calls) ds id k =
      lookup-do_calls calls (delete_parent p ds) id (delete_parent-IsConsistent p ds k)
      ∙ ap (chunk_after id calls) (lookup-delete_parent p id ds k)

  do_calls-IsConsistent :
      (calls : List (DocCall F)) (ds : DocStore F)
      → IsConsistent ds
      → IsConsistent (do_calls calls ds)
  do_calls-IsConsistent [] ds k = k
  do_calls-IsConsistent (call ∷ calls) ds k =
      do_calls-IsConsistent calls (do_call call ds) (do_call-IsConsistent call ds k)

  -- After any sequence of `PutChunk` and `DeleteParent` on a new document store, the chunk under
  -- an ID is the last one put there unless its parent was deleted since, and `ParentOf` returns
  -- the parent of just this chunk.
  pub lookup-run :
      (calls : List (DocCall F)) (id : Str)
      → (lookup id (do_calls calls (new_doc_store F)).chunks ≡ chunk_after id calls none)
        × (parent_of_chunk id (do_calls calls (new_doc_store F))
            ≡ parent_in (chunk_after id calls none))
  unfolding parent_of_chunk lookup
  lookup-run calls id =
      let found = lookup-do_calls calls (new_doc_store F) id new-IsConsistent in
      (
        found,
        (do_calls-IsConsistent calls (new_doc_store F) new-IsConsistent).parents id
            ∙ rw found (elim (Option-cases (chunk_after id calls none)) [
              | inl e ↦ rw e
              | inr (c, e) ↦ rw e
            ]),
      )
