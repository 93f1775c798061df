-- ===== src/Index/Inverted/Life.antt =====
-- What the calls of index/index.go do to what a client reads with `Lookup`.
use go_search.Base.{
  ◌≡◌, sym, ◌∙◌, true, not, ◌&&◌, ◌||◌, Option, some, List, arith, Str, same, same_refl,
}
use go_search.Base.Map.{has}
use go_search.Base.Float.{Float64}
use go_search.Analysis.Token.{Token}
use go_search.Index.KdTree.{Sorting}
use go_search.Index.Segment.{Segment, has_posting, any_segment}
use go_search.Index.Inverted.{Index, lookup_map, flush, add, delete_posting, merge}
use go_search.Index.Inverted.Reports.{
  Enumerates, IsWellFormed, visible, has-lookup_map, visible-flush, visible-delete,
}
use go_search.Index.Inverted.Updates.{
  added, visible-add, merged_index, visible-merged_index, merged_index-IsWellFormed, merge-eq,
}
use go_search.Index.Inverted.Steps.{flush-IsWellFormed, add-IsWellFormed}

module _ (fl : Float64) where
  -- After `Add` to a well-formed index, flush included, `Lookup` reports the added document for
  -- the terms of its tokens, for the terms its buffered postings keep, and for the terms that an
  -- old segment holds for it; of every other document it reports what it did. It holds for any
  -- order in which the segments report.
  pub lookup-add :
      (sorting : Sorting) (d : Str) (field : Option Str) (tokens : List Token) (idx : Index fl)
      (order : List Segment) (t j : Str)
      → IsWellFormed fl idx
      → Enumerates order (add fl sorting d field tokens idx).segments
      → has j (lookup_map fl (add fl sorting d field tokens idx) order t)
        ≡ added fl d field tokens idx t j
  lookup-add sorting d field tokens idx order t j w en =
      has-lookup_map fl (add fl sorting d field tokens idx) order t j
        (add-IsWellFormed fl sorting d field tokens idx w) en
      ∙ visible-add fl sorting d field tokens idx t j

  -- `Flush` of a well-formed index does not change which documents `Lookup` reports, in whatever
  -- order the segments report before and after.
  pub lookup-flush :
      (sorting : Sorting) (idx : Index fl) (order order' : List Segment) (t j : Str)
      → IsWellFormed fl idx
      → Enumerates order idx.segments
      → Enumerates order' (flush fl sorting idx).segments
      → has j (lookup_map fl (flush fl sorting idx) order' t) ≡ has j (lookup_map fl idx order t)
  lookup-flush sorting idx order order' t j w en en' =
      has-lookup_map fl (flush fl sorting idx) order' t j (flush-IsWellFormed fl sorting idx w) en'
      ∙ visible-flush fl sorting idx t j
      ∙ sym (has-lookup_map fl idx order t j w en)

  -- After `Delete` on a well-formed index `Lookup` reports the documents that it reported, less
  -- the deleted one.
  pub lookup-delete :
      (idx : Index fl) (d : Str) (order : List Segment) (t j : Str)
      → IsWellFormed fl idx
      → Enumerates order idx.segments
      → has j (lookup_map fl (delete_posting fl d idx) order t)
        ≡ (not (same d j) && has j (lookup_map fl idx order t))
  unfolding delete_posting
  lookup-delete idx d order t j w en =
      has-lookup_map fl (delete_posting fl d idx) order t j
        (record { buffer = w.buffer; segments = w.segments }) en
      ∙ visible-delete fl idx d t j
      ∙ rw (has-lookup_map fl idx order t j w en)

  -- If a segment of a well-formed index has a posting of a term for a document, then after
  -- `Delete` and `Add` of that document `Lookup` reports it for the term, whatever tokens it was
  -- added with.
  pub add_again-stale :
      (sorting : Sorting) (d : Str) (field : Option Str) (tokens : List Token) (idx : Index fl)
      (order : List Segment) (t : Str)
      → IsWellFormed fl idx
      → any_segment t d idx.segments ≡ true
      → Enumerates order (add fl sorting d field tokens (delete_posting fl d idx)).segments
      → has d (lookup_map fl (add fl sorting d field tokens (delete_posting fl d idx)) order t)
        ≡ true
  unfolding delete_posting
  add_again-stale sorting d field tokens idx order t w h en =
      lookup-add sorting d field tokens (delete_posting fl d idx) order t d
        (record { buffer = w.buffer; segments = w.segments }) en
      ∙ ground (arith, same_refl d, h)

  -- `Merge` of a well-formed index with nothing in between returns, and afterwards `Lookup`
  -- reports a document for a term exactly when it was visible before or the buffer has a posting
  -- of the term for it: a deleted document that the buffer still holds is reported again.
  pub lookup-merge :
      (idx : Index fl) (order : List Segment) (t j : Str)
      → IsWellFormed fl idx
      → Enumerates order (merged_index fl idx).segments
      → (merge fl idx ≡ some (merged_index fl idx))
        × (has j (lookup_map fl (merged_index fl idx) order t)
            ≡ (visible fl idx t j || has_posting t j idx.buffer))
  lookup-merge idx order t j w en = (
    merge-eq fl idx,
    has-lookup_map fl (merged_index fl idx) order t j (merged_index-IsWellFormed fl idx w) en
        ∙ visible-merged_index fl idx t j w
        ∙ ground arith,
  )
