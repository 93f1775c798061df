-- ===== src/Index/KdTree/Deletion.antt =====
-- What `Delete` of index/kdtree.go takes out of the range queries.
use go_search.Base.{
  ◌≡◌, refl, sym, ap, true, false, ◌&&◌, not, Option, none, some, List, [], ◌∷◌, Str, same, keep,
  keep-append, inl, inr, Bool-cases,
}
use go_search.Base.Float.{Float64}
use go_search.Index.KdTree.{
  FieldBound, KdEntry, KdNode, KdTree, leaf, split, mark_deleted, delete_from_node, delete_doc,
}
use go_search.Index.KdTree.Ranges.{misses, leaf_matches, leaf_ids, multi_range_node, multi_range}

-- At most one entry of a leaf is the document's.
abbrev pub Absent : {F : Type 0} → Str → List (KdEntry F) → Type 0
Absent d [] = Unit
Absent d (entry ∷ entries) = (same entry.doc_id d ≡ false) × Absent d entries

abbrev pub Once : {F : Type 0} → Str → List (KdEntry F) → Type 0
Once d [] = Unit
Once d (entry ∷ entries) = (same entry.doc_id d ≡ true → Absent d entries) × Once d entries

abbrev pub OnceBelow : {F : Type 0} → Str → KdNode F → Type 0
OnceBelow d (leaf box entries) = Once d entries
OnceBelow d (split field val box left right) = OnceBelow d left × OnceBelow d right

abbrev pub OnceIn : {F : Type 0} → Str → Option (KdNode F) → Type 0
OnceIn d none = Unit
OnceIn d (some n) = OnceBelow d n

abbrev pub without : Str → List Str → List Str
without d = keep (λ id. not (same id d))

module _ (fl : Float64) (bounds : List (FieldBound fl.F)) (d : Str) where
  leaf_ids-Absent :
      (entries : List (KdEntry fl.F))
      → Absent d entries
      → without d (leaf_ids fl bounds entries) ≡ leaf_ids fl bounds entries
  unfolding leaf_ids keep
  leaf_ids-Absent [] h = refl
  leaf_ids-Absent (entry ∷ entries) (e, h) =
      elim (Bool-cases (not entry.deleted && leaf_matches fl bounds entry)) [
        | inl m ↦ rw m (rw e (ap (λ (t : List Str). entry.doc_id ∷ t) (leaf_ids-Absent entries h)))
        | inr m ↦ rw m (leaf_ids-Absent entries h)
      ]

  leaf_ids-mark_deleted :
      (entries : List (KdEntry fl.F))
      → Once d entries
      → leaf_ids fl bounds (mark_deleted d entries) ≡ without d (leaf_ids fl bounds entries)
  unfolding leaf_ids mark_deleted keep
  leaf_ids-mark_deleted [] h = refl
  leaf_ids-mark_deleted (entry ∷ entries) (first, h) = elim (Bool-cases (same entry.doc_id d)) [
    | inl e ↦ elim (Bool-cases (not entry.deleted && leaf_matches fl bounds entry)) [
      | inl m ↦ rw (e, m) (rw e (sym (leaf_ids-Absent entries (first e))))
      | inr m ↦ rw (e, m) (sym (leaf_ids-Absent entries (first e)))
    ]
    | inr e ↦ elim (Bool-cases (not entry.deleted && leaf_matches fl bounds entry)) [
      | inl m ↦
          rw (e, m)
            (rw e (ap (λ (t : List Str). entry.doc_id ∷ t) (leaf_ids-mark_deleted entries h)))
      | inr m ↦ rw (e, m) (leaf_ids-mark_deleted entries h)
    ]
  ]

  multi_range_node-delete :
      (n : KdNode fl.F)
      → OnceBelow d n
      → multi_range_node fl (delete_from_node d n) bounds ≡ without d (multi_range_node fl n bounds)
  unfolding multi_range_node delete_from_node keep
  multi_range_node-delete (leaf box entries) h = elim (Bool-cases (misses fl box bounds)) [
    | inl m ↦ rw m
    | inr m ↦ rw m (leaf_ids-mark_deleted entries h)
  ]
  multi_range_node-delete (split field val box left right) (hl, hr) =
      elim (Bool-cases (misses fl box bounds)) [
        | inl m ↦ rw m
        | inr m ↦ rw m (
            rw (multi_range_node-delete left hl, multi_range_node-delete right hr)
              (sym (
                keep-append (λ id. not (same id d)) (multi_range_node fl left bounds)
                  (multi_range_node fl right bounds))))
      ]

  multi_range-root :
      (root : Option (KdNode fl.F)) (fields : List Str)
      → OnceIn d root
      → multi_range fl (delete_doc d (record { root = root; fields = fields })) bounds
        ≡ without d (multi_range fl (record { root = root; fields = fields }) bounds)
  unfolding multi_range delete_doc keep
  multi_range-root none fields h = refl
  multi_range-root (some n) fields h = multi_range_node-delete n h

  -- After `Delete` of a document of which no leaf has more than one entry, a range query on the
  -- K-D tree returns what it returned, less that document, in the same order.
  pub multi_range-delete_doc :
      (t : KdTree fl.F)
      → OnceIn d t.root
      → multi_range fl (delete_doc d t) bounds ≡ without d (multi_range fl t bounds)
  multi_range-delete_doc t h = multi_range-root t.root t.fields h
