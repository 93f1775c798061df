-- ===== src/Index/Inverted/Updates.antt =====
-- What `Add`, `Delete` and `Merge` of index/index.go do to what `Lookup` reports.
use go_search.Base.{
  ◌+◌, ◌≡◌, refl, ◌∙◌, Bool, not, ◌&&◌, ◌||◌, Option, some, List, [], ◌∷◌, arith, length, Str, same,
  same_iff, inl, inr, Bool-cases, if◌then◌else◌, drop,
}
use go_search.Base.Int.{increment}
use go_search.Base.Map.{lookup, insert, has}
use go_search.Base.Float.{Float64}
use go_search.Analysis.Token.{Token}
use go_search.Index.Trie
use go_search.Index.KdTree.{Sorting}
use go_search.Index.Segment.{
  Segment, has_posting, add_posting, field_term, merge_segments, no_segment, delete_ids,
  any_segment,
}
use go_search.Index.Segment.WellFormed.{merge_segments-PostingsOk}
use go_search.Index.Segment.Visible.{
  has-delete, has_posting-add_posting, has_posting-purge, has_posting-merge_segments,
}
use go_search.Index.Inverted.{
  Index, clear_tombstone, add_tokens, flush_if_full, is_full, add, merge, merge_view, merge_swap,
}
use go_search.Index.Inverted.Reports.{
  any_token, IsWellFormed, visible, visible-flush, has-delete_ids,
}

module _ (fl : Float64) where
  pub visible-flush_if_full :
      (sorting : Sorting) (idx : Index fl) (t j : Str)
      → visible fl (flush_if_full fl sorting idx) t j ≡ visible fl idx t j
  unfolding flush_if_full
  visible-flush_if_full sorting idx t j = elim (Bool-cases (is_full fl sorting idx)) [
    | inl e ↦ rw e (visible-flush fl sorting idx t j)
    | inr e ↦ rw e
  ]

  -- The loop over the tokens touches the document's own postings in the buffer only.
  add_tokens-buffer :
      (d : Str) (field : Option Str) (tokens : List Token) (idx : Index fl) (t j : Str)
      → has_posting t j (add_tokens fl d field tokens idx).buffer
        ≡ ((same d j && any_token field t tokens) || has_posting t j idx.buffer)
  unfolding add_tokens
  add_tokens-buffer d field [] idx t j = ground arith
  add_tokens-buffer d field (token ∷ tokens) idx t j =
      let term = field_term field token.term in
      add_tokens-buffer d field tokens
        (record idx {
          trie = Trie.insert term idx.trie;
          buffer = add_posting term d token.position idx.buffer;
          token_count = idx.token_count + 1;
        })
        t j
      ∙ ground (arith, has_posting-add_posting term d token.position idx.buffer t j)

  pub add_tokens-frame :
      (d : Str) (field : Option Str) (tokens : List Token) (idx : Index fl)
      → ((add_tokens fl d field tokens idx).tombstones ≡ idx.tombstones)
        × ((add_tokens fl d field tokens idx).segments ≡ idx.segments)
  unfolding add_tokens
  add_tokens-frame d field [] idx = (refl, refl)
  add_tokens-frame d field (token ∷ tokens) idx = add_tokens-frame d field tokens _

  -- Whether the buffer's postings of a document survive `clearTombstone`.
  abbrev pub buffered : Index fl → Str → Str → Bool
  buffered idx d t =
      not (has d idx.tombstones && has d idx.buffer_docs) && has_posting t d idx.buffer

  pub clear_tombstone-buffer :
      (d : Str) (idx : Index fl) (t j : Str)
      → has_posting t j (clear_tombstone fl d idx).buffer
        ≡ (if same d j then buffered idx d t else has_posting t j idx.buffer)
  unfolding clear_tombstone
  clear_tombstone-buffer d idx t j =
      ground (arith, has_posting-purge d idx.buffer t j, same_iff d j)

  pub clear_tombstone-tombstones :
      (d : Str) (idx : Index fl) (j : Str)
      → has j (clear_tombstone fl d idx).tombstones ≡ (not (same d j) && has j idx.tombstones)
  unfolding clear_tombstone
  clear_tombstone-tombstones d idx j = has-delete d j idx.tombstones

  pub clear_tombstone-segments :
      (d : Str) (idx : Index fl) → (clear_tombstone fl d idx).segments ≡ idx.segments
  unfolding clear_tombstone
  clear_tombstone-segments d idx = refl

  -- What the specification says of a document and a term after `Add` of document `d`.
  abbrev pub added : Str → Option Str → List Token → Index fl → Str → Str → Bool
  added d field tokens idx t j =
      if same d j
      then any_token field t tokens || (buffered idx d t || any_segment t d idx.segments)
      else visible fl idx t j

  pub visible-add :
      (sorting : Sorting) (d : Str) (field : Option Str) (tokens : List Token) (idx : Index fl)
      (t j : Str)
      → visible fl (add fl sorting d field tokens idx) t j ≡ added d field tokens idx t j
  unfolding add
  visible-add sorting d field tokens idx t j =
      let idx₁ = clear_tombstone fl d idx in
      let (tombs, segs) = add_tokens-frame d field tokens idx₁ in
      let idx₂ = add_tokens fl d field tokens idx₁ in
      visible-flush_if_full sorting
        (record idx₂ {
          buffer_docs = insert d tt idx₂.buffer_docs;
          doc_count = increment idx₂.doc_count;
        })
        t j
      ∙ rw (tombs, segs, clear_tombstone-segments d idx)
          (ground (
            arith,
            add_tokens-buffer d field tokens idx₁ t j,
            clear_tombstone-buffer d idx t j,
            clear_tombstone-tombstones d idx j,
            same_iff d j,
          ))

  -- A merge at rest: the segments' live postings, and all of the buffer.
  abbrev pub merged : Index fl → Str → Str → Bool
  merged idx t j =
      (not (has j idx.tombstones) && any_segment t j idx.segments) || has_posting t j idx.buffer

  abbrev pub merged_index : Index fl → Index fl
  merged_index idx = record idx {
    segments =
        merge_segments idx.tombstones idx.segments no_segment
        ∷ drop (length idx.segments) idx.segments;
    tombstones = delete_ids idx.tombstones idx.tombstones;
  }

  pub merge-eq : (idx : Index fl) → merge fl idx ≡ some (merged_index idx)
  unfolding merge merge_view merge_swap
  merge-eq idx = ground arith

  drop_all : (segs : List Segment) → drop (length segs) segs ≡ []
  drop_all [] = refl
  drop_all (s ∷ segs) = drop_all segs

  pub visible-merged_index :
      (idx : Index fl) (t j : Str)
      → IsWellFormed fl idx
      → visible fl (merged_index idx) t j ≡ merged idx t j
  unfolding lookup
  visible-merged_index idx t j w = rw (drop_all idx.segments) (
      ground (
        arith,
        has-delete_ids idx.tombstones idx.tombstones j,
        has_posting-merge_segments idx.tombstones idx.segments no_segment t j w.segments,
      ))

  pub merged_index-IsWellFormed :
      (idx : Index fl) → IsWellFormed fl idx → IsWellFormed fl (merged_index idx)
  merged_index-IsWellFormed idx w = record {
    buffer = w.buffer;
    segments =
        rw (drop_all idx.segments)
          (merge_segments-PostingsOk idx.tombstones idx.segments no_segment w.segments tt, tt);
  }
