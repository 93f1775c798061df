-- ===== src/Engine/DocStore.antt =====
-- engine/docstore.go: the chunks of large fields and the documents they belong to. A file is what
-- `os.Open` finds under its path. Offsets and lengths are not negative.
pub mod Chunks
pub mod Runs
use go_search.Base.{
  ℕ, zero, suc, ◌+◌, Bool, true, false, ◌||◌, Option, none, some, List, [], ◌∷◌, leb, if◌then◌else◌,
  length, take, drop, Str, same,
}
use go_search.Base.Bytes.{Bytes}
use go_search.Base.Map.{Map, lookup, insert, delete, value_or, StrSet}

pub record FieldMeta (F : Type 0) : Type 0 where
  pub file_path : Str
  pub offset : ℕ
  pub length : ℕ
  pub boost : F

pub record ChunkMeta (F : Type 0) : Type 0 where
  pub chunk_id : Str
  pub parent_id : Str
  pub field : Str
  pub meta : FieldMeta F

pub record DocStore (F : Type 0) : Type 0 where
  pub chunks : Map (ChunkMeta F)
  pub parent_of : Map Str

abbrev pub new_doc_store : (F : Type 0) → DocStore F
new_doc_store F = record { chunks = []; parent_of = [] }

unfoldable pub parent_set : Map Str → StrSet → StrSet
parent_set [] parents = parents
parent_set ((chunk_id, p_id) ∷ rest) parents = parent_set rest (insert p_id tt parents)

module _ {F : Type 0} where
  unfoldable pub put_chunk : ChunkMeta F → DocStore F → DocStore F
  put_chunk c ds = record {
    chunks = insert c.chunk_id c ds.chunks;
    parent_of = insert c.chunk_id c.parent_id ds.parent_of;
  }

  -- The zero value stands in for a chunk that is not there.
  unfoldable pub chunks_below : ChunkMeta F → Str → Map Str → Map (ChunkMeta F) → List (ChunkMeta F)
  chunks_below no_chunk parent_id [] chunks = []
  chunks_below no_chunk parent_id ((chunk_id, p_id) ∷ parents) chunks =
      let rest = chunks_below no_chunk parent_id parents chunks in
      let c = value_or no_chunk (lookup chunk_id chunks) in
      if same p_id parent_id then c ∷ rest else rest

  unfoldable pub chunks_for : ChunkMeta F → Str → DocStore F → List (ChunkMeta F)
  unfolding chunks_below
  chunks_for no_chunk parent_id ds = chunks_below no_chunk parent_id ds.parent_of ds.chunks

  unfoldable pub parent_of_chunk : Str → DocStore F → Option Str
  parent_of_chunk chunk_id ds = lookup chunk_id ds.parent_of

  -- The loop of `DeleteParent`: it goes over the entries that were there.
  unfoldable pub delete_below : Str → Map Str → DocStore F → DocStore F
  delete_below parent_id [] ds = ds
  delete_below parent_id ((chunk_id, p_id) ∷ parents) ds = delete_below parent_id parents (
      if same p_id parent_id
      then record { chunks = delete chunk_id ds.chunks; parent_of = delete chunk_id ds.parent_of }
      else ds)

  unfoldable pub delete_parent : Str → DocStore F → DocStore F
  unfolding delete_below
  delete_parent parent_id ds = delete_below parent_id ds.parent_of ds

  unfoldable pub count_parents : DocStore F → ℕ
  unfolding parent_set
  count_parents ds = length (parent_set ds.parent_of [])

  -- `ReadChunk`: the text, empty for an unknown chunk; `none` is an error of the file.
  unfoldable pub read_chunk : (Str → Option Bytes) → Str → DocStore F → Option Bytes
  read_chunk files chunk_id ds = elim (lookup chunk_id ds.chunks) [
    | none ↦ some []
    | some c ↦ elim (files c.meta.file_path) [
      | none ↦ none
      | some file ↦
          if leb c.meta.length 0 || leb (c.meta.offset + c.meta.length) (length file)
          then some (take c.meta.length (drop c.meta.offset file))
          else none
    ]
  ]

-- The calls that change the store.
pub data DocCall (F : Type 0) : Type 0 where
  put_call : ChunkMeta F → DocCall F
  delete_call : Str → DocCall F

module _ {F : Type 0} where
  abbrev pub do_call : DocCall F → DocStore F → DocStore F
  do_call (put_call c) ds = put_chunk c ds
  do_call (delete_call parent_id) ds = delete_parent parent_id ds

  abbrev pub do_calls : List (DocCall F) → DocStore F → DocStore F
  do_calls [] ds = ds
  do_calls (call ∷ calls) ds = do_calls calls (do_call call ds)
