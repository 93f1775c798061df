-- ===== src/Index/Inverted/Steps.antt =====
-- The life of an index of index/index.go: calls in any order, with at most one merge under way
-- between them.
use go_search.Base.{
  ℕ, ◌+◌, ◌≡◌, ◌&&◌, Option, none, some, List, [], ◌∷◌, ◌++◌, length, Str, inl, inr, Bool-cases,
  ltb,
}
use go_search.Base.Int.{increment}
use go_search.Base.Map.{insert, has}
use go_search.Base.Float.{Float64}
use go_search.Analysis.Token.{Token}
use go_search.Index.Trie
use go_search.Index.KdTree.{Sorting}
use go_search.Index.Segment.{Segment, add_posting, field_term, MergeView}
use go_search.Index.Segment.WellFormed.{SegmentsOk, add_posting-PostingsOk, purge-PostingsOk}
use go_search.Index.Inverted.{
  Index, clear_tombstone, add_tokens, flush, flush_if_full, is_full, add, add_raw, tick,
  delete_posting, merge_view, merge_swap, new_index,
}
use go_search.Index.Inverted.Reports.{IsWellFormed}

pub SegmentsOk-append :
    (segs more : List Segment) → SegmentsOk segs → SegmentsOk more → SegmentsOk (segs ++ more)
SegmentsOk-append [] more h k = k
SegmentsOk-append (s ∷ segs) more (hs, h) k = (hs, SegmentsOk-append segs more h k)

pub SegmentsOk-left : (segs more : List Segment) → SegmentsOk (segs ++ more) → SegmentsOk segs
SegmentsOk-left [] more h = tt
SegmentsOk-left (s ∷ segs) more (hs, h) = (hs, SegmentsOk-left segs more h)

pub SegmentsOk-right : (segs more : List Segment) → SegmentsOk (segs ++ more) → SegmentsOk more
SegmentsOk-right [] more h = h
SegmentsOk-right (s ∷ segs) more (hs, h) = SegmentsOk-right segs more h

module _ (fl : Float64) where
  pub clear_tombstone-IsWellFormed :
      (d : Str) (idx : Index fl) → IsWellFormed fl idx → IsWellFormed fl (clear_tombstone fl d idx)
  unfolding clear_tombstone
  clear_tombstone-IsWellFormed d idx w = record {
    buffer = elim (Bool-cases (has d idx.tombstones && has d idx.buffer_docs)) [
      | inl e ↦ rw e (purge-PostingsOk d idx.buffer w.buffer)
      | inr e ↦ rw e w.buffer
    ];
    segments = w.segments;
  }

  pub add_tokens-IsWellFormed :
      (d : Str) (field : Option Str) (tokens : List Token) (idx : Index fl)
      → IsWellFormed fl idx
      → IsWellFormed fl (add_tokens fl d field tokens idx)
  unfolding add_tokens
  add_tokens-IsWellFormed d field [] idx w = w
  add_tokens-IsWellFormed d field (token ∷ tokens) idx w =
      add_tokens-IsWellFormed d field tokens _ (record {
        buffer =
            add_posting-PostingsOk (field_term field token.term) d token.position idx.buffer
              w.buffer;
        segments = w.segments;
      })

  -- An index, and what a merge that is under way took with it.
  pub record State : Type 0 where
    pub index : Index fl
    pub flight : Option MergeView

  module _ (sorting : Sorting) where
    pub flush-IsWellFormed :
        (idx : Index fl) → IsWellFormed fl idx → IsWellFormed fl (flush fl sorting idx)
    unfolding flush
    flush-IsWellFormed idx w = record {
      buffer = tt;
      segments = SegmentsOk-append idx.segments _ w.segments (w.buffer, tt);
    }

    flush_if_full-IsWellFormed :
        (idx : Index fl) → IsWellFormed fl idx → IsWellFormed fl (flush_if_full fl sorting idx)
    unfolding flush_if_full
    flush_if_full-IsWellFormed idx w = elim (Bool-cases (is_full fl sorting idx)) [
      | inl e ↦ rw e (record {
        buffer = (flush-IsWellFormed idx w).buffer;
        segments = (flush-IsWellFormed idx w).segments;
      })
      | inr e ↦ rw e w
    ]

    pub add-IsWellFormed :
        (d : Str) (field : Option Str) (tokens : List Token) (idx : Index fl)
        → IsWellFormed fl idx
        → IsWellFormed fl (add fl sorting d field tokens idx)
    unfolding add
    add-IsWellFormed d field tokens idx w =
        let idx' = clear_tombstone fl d idx in
        let idx₂ = add_tokens fl d field tokens idx' in
        let w' =
          add_tokens-IsWellFormed d field tokens idx' (clear_tombstone-IsWellFormed d idx w) in
        flush_if_full-IsWellFormed
          (record idx₂ {
            buffer_docs = insert d tt idx₂.buffer_docs;
            doc_count = increment idx₂.doc_count;
          })
          (record { buffer = w'.buffer; segments = w'.segments })

    pub add_raw-IsWellFormed :
        (d field value : Str) (idx : Index fl)
        → IsWellFormed fl idx
        → IsWellFormed fl (add_raw fl sorting d field value idx)
    unfolding add_raw
    add_raw-IsWellFormed d field value idx w =
        let idx' = clear_tombstone fl d idx in
        let term = field ++ (b':' ∷ value) in
        let w' = clear_tombstone-IsWellFormed d idx w in
        flush_if_full-IsWellFormed
          (record idx' {
            trie = Trie.insert term idx'.trie;
            buffer = add_posting term d 0 idx'.buffer;
            buffer_docs = insert d tt idx'.buffer_docs;
            doc_count = increment idx'.doc_count;
            token_count = idx'.token_count + 1;
          })
          (record {
            buffer = add_posting-PostingsOk term d 0 idx'.buffer w'.buffer;
            segments = w'.segments;
          })

    pub tick-IsWellFormed :
        (idx : Index fl) → IsWellFormed fl idx → IsWellFormed fl (tick fl sorting idx)
    unfolding tick
    tick-IsWellFormed idx w = elim (Bool-cases (ltb 0 (length idx.buffer_docs))) [
      | inl e ↦ rw e (record {
        buffer = (flush-IsWellFormed idx w).buffer;
        segments = (flush-IsWellFormed idx w).segments;
      })
      | inr e ↦ rw e w
    ]

    pub data Step : State → State → Type 0 where
      adds :
          (s : State) (d : Str) (field : Option Str) (tokens : List Token)
          → Step s (record s { index = add fl sorting d field tokens s.index })
      adds_raw :
          (s : State) (d field value : Str)
          → Step s (record s { index = add_raw fl sorting d field value s.index })
      deletes : (s : State) (d : Str) → Step s (record s { index = delete_posting fl d s.index })
      flushes : (s : State) → Step s (record s { index = flush fl sorting s.index })
      ticks : (s : State) → Step s (record s { index = tick fl sorting s.index })
      merge_starts :
          (s : State)
          → s.flight ≡ none
          → Step s (record s { flight = some (merge_view fl s.index) })
      merge_ends :
          (s : State) (view : MergeView) (idx : Index fl)
          → s.flight ≡ some view
          → merge_swap fl view s.index ≡ some idx
          → Step s (record { index = idx; flight = none })

    -- The states that calls reach from an empty index.
    pub data Reach (flush_size max_tokens max_segments : ℕ) : State → Type 0 where
      start :
          Reach flush_size max_tokens max_segments
            (record { index = new_index fl flush_size max_tokens max_segments; flight = none })
      later :
          {s s' : State}
          → Reach flush_size max_tokens max_segments s
          → Step s s'
          → Reach flush_size max_tokens max_segments s'
