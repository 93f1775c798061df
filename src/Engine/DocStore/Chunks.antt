-- ===== src/Engine/DocStore/Chunks.antt =====
-- What engine/docstore.go knows of a chunk after a deletion.
use go_search.Base.{
  ◌≡◌, refl, ◌∙◌, Bool, true, false, none, some, [], ◌∷◌, if◌then◌else◌, Str, same, same_iff, arith,
  inl, inr, Bool-cases, Option-cases,
}
use mathlib.Core.Path.{subst}
use go_search.Base.Map.{
  Unique, insert-Unique, delete-Unique, Map, lookup, delete, lookup-delete, lookup-insert,
}
use go_search.Engine.DocStore.{
  ChunkMeta, DocStore, put_chunk, delete_below, delete_parent, new_doc_store,
}

-- Some entry of the list has this chunk under this parent.
abbrev listed : Str → Str → Map Str → Bool
listed id parent_id [] = false
listed id parent_id ((chunk_id, p_id) ∷ parents) =
    if same chunk_id id
    then (if same p_id parent_id then true else listed id parent_id parents)
    else listed id parent_id parents

listed-lookup :
    (id parent_id : Str) (parents : Map Str)
    → Unique parents
    → listed id parent_id parents
      ≡ elim (lookup id parents) [ none ↦ false | some p ↦ same p parent_id ]
unfolding lookup
listed-lookup id parent_id [] u = refl
listed-lookup id parent_id ((j, p) ∷ parents) (n, u) = elim (Bool-cases (same j id)) [
  | inl e ↦
      let none_at : lookup id parents ≡ none =
        subst (λ i. lookup i parents ≡ none) ((same_iff j id).0 e) n in
      rw e (elim (Bool-cases (same p parent_id)) [
        | inl q ↦ rw q
        | inr q ↦ rw q (listed-lookup id parent_id parents u ∙ rw none_at)
      ])
  | inr e ↦ rw e (listed-lookup id parent_id parents u)
]

module _ {F : Type 0} where
  lookup-delete_below :
      (parent_id id : Str) (parents : Map Str) (ds : DocStore F)
      → (lookup id (delete_below parent_id parents ds).parent_of
          ≡ (if listed id parent_id parents then none else lookup id ds.parent_of))
        × (lookup id (delete_below parent_id parents ds).chunks
            ≡ (if listed id parent_id parents then none else lookup id ds.chunks))
  unfolding delete_below
  lookup-delete_below parent_id id [] ds = (refl, refl)
  lookup-delete_below parent_id id ((chunk_id, p_id) ∷ parents) ds =
      elim (Bool-cases (same p_id parent_id)) [
        | inl e ↦
            let ds' : DocStore F = record {
              chunks = delete chunk_id ds.chunks;
              parent_of = delete chunk_id ds.parent_of;
            } in
            let (p, c) = lookup-delete_below parent_id id parents ds' in
            rw e (
              ground (arith, p, lookup-delete chunk_id id ds.parent_of),
              ground (arith, c, lookup-delete chunk_id id ds.chunks),
            )
        | inr e ↦
            let (p, c) = lookup-delete_below parent_id id parents ds in
            rw e (ground (arith, p), ground (arith, c))
      ]

  -- Both maps know the same chunks, each once, and a chunk's parent is its own.
  pub record IsConsistent (ds : DocStore F) : Type 0 where
    pub unique : Unique ds.parent_of
    pub parents :
        (id : Str)
        → lookup id ds.parent_of
          ≡ elim (lookup id ds.chunks) [ none ↦ none | some c ↦ some c.parent_id ]

  -- What `DeleteParent` leaves of an entry with its parent.
  pub lookup-delete_parent :
      (parent_id id : Str) (ds : DocStore F)
      → IsConsistent ds
      → lookup id (delete_parent parent_id ds).chunks ≡ elim (lookup id ds.chunks) [
        | none ↦ none
        | some c ↦ if same c.parent_id parent_id then none else some c
      ]
  unfolding delete_parent
  lookup-delete_parent parent_id id ds k =
      (lookup-delete_below parent_id id ds.parent_of ds).1
      ∙ rw (listed-lookup id parent_id ds.parent_of k.unique, k.parents id)
          (elim (Option-cases (lookup id ds.chunks)) [ inl e ↦ rw e | inr (p, e) ↦ rw e ])

  pub lookup-put_chunk :
      (c : ChunkMeta F) (ds : DocStore F) (id : Str)
      → lookup id (put_chunk c ds).chunks
        ≡ (if same c.chunk_id id then some c else lookup id ds.chunks)
  unfolding put_chunk
  lookup-put_chunk c ds id = lookup-insert c.chunk_id id c ds.chunks

  either_Unique :
      (b : Bool) (c d : DocStore F)
      → Unique c.parent_of
      → Unique d.parent_of
      → Unique (if b then c else d).parent_of
  either_Unique true c d u v = u
  either_Unique false c d u v = v

  delete_below-Unique :
      (parent_id : Str) (parents : Map Str) (ds : DocStore F)
      → Unique ds.parent_of
      → Unique (delete_below parent_id parents ds).parent_of
  unfolding delete_below
  delete_below-Unique parent_id [] ds u = u
  delete_below-Unique parent_id ((chunk_id, p_id) ∷ parents) ds u =
      delete_below-Unique parent_id parents _ (
        either_Unique (same p_id parent_id)
          (record { chunks = delete chunk_id ds.chunks; parent_of = delete chunk_id ds.parent_of })
          ds (delete-Unique chunk_id ds.parent_of u) u)

  pub delete_parent-IsConsistent :
      (parent_id : Str) (ds : DocStore F)
      → IsConsistent ds
      → IsConsistent (delete_parent parent_id ds)
  unfolding delete_parent
  delete_parent-IsConsistent parent_id ds c = record {
    unique = delete_below-Unique parent_id ds.parent_of ds c.unique;
    parents = λ id.
        let (p, q) = lookup-delete_below parent_id id ds.parent_of ds in
        p
        ∙ rw (q, c.parents id)
            (elim (Bool-cases (listed id parent_id ds.parent_of)) [ inl e ↦ rw e | inr e ↦ rw e ]);
  }

  pub put_chunk-IsConsistent :
      (c : ChunkMeta F) (ds : DocStore F) → IsConsistent ds → IsConsistent (put_chunk c ds)
  unfolding put_chunk
  put_chunk-IsConsistent c ds k = record {
    unique = insert-Unique c.chunk_id c.parent_id ds.parent_of k.unique;
    parents = λ id.
        rw
          (
            lookup-insert c.chunk_id id c.parent_id ds.parent_of,
            lookup-insert c.chunk_id id c ds.chunks,
          )
          (elim (Bool-cases (same c.chunk_id id)) [ inl e ↦ rw e | inr e ↦ rw e (k.parents id) ]);
  }

  pub new-IsConsistent : IsConsistent (new_doc_store F)
  unfolding lookup
  new-IsConsistent = record { unique = tt; parents = λ id. refl }
