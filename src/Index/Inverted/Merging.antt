-- ===== src/Index/Inverted/Merging.antt =====
-- A merge of index/index.go that runs while other calls change the index.
use go_search.Base.{
  ℕ, ◌+◌, ◌≡◌, refl, sym, ap, ◌∙◌, false, ◌||◌, Option, none, some, List, [], ◌∷◌, ◌++◌, arith,
  length, Str, inl, inr, Bool-cases, ltb, append_assoc, append-nil, length-append, drop-append,
}
use mathlib.Core.Path.{subst}
use go_search.Base.Map.{has, lookup, insert}
use go_search.Base.Int.{increment}
use go_search.Base.Float.{Float64}
use go_search.Analysis.Token.{Token}
use go_search.Index.Trie
use go_search.Index.KdTree.{Sorting}
use go_search.Index.Segment.{
  add_posting, Segment, any_segment, merge_segments, no_segment, delete_ids, MergeView,
}
use go_search.Index.Segment.WellFormed.{SegmentsOk, merge_segments-PostingsOk}
use go_search.Index.Segment.Visible.{has_posting-merge_segments}
use go_search.Index.Inverted.{
  Index, clear_tombstone, add_tokens, flush, flush_if_full, is_full, add, add_raw, tick,
  delete_posting, merge_view, merge_swap,
}
use go_search.Index.Inverted.Reports.{IsWellFormed, visible, has-delete_ids}
use go_search.Index.Inverted.Updates.{add_tokens-frame}
use go_search.Index.Inverted.Steps.{
  State, Step, Reach, adds, adds_raw, deletes, flushes, ticks, merge_starts, merge_ends, start,
  later, flush-IsWellFormed, add-IsWellFormed, add_raw-IsWellFormed, tick-IsWellFormed,
  SegmentsOk-left, SegmentsOk-right,
}

any_segment-split :
    (t j : Str) (segs more : List Segment)
    → any_segment t j (segs ++ more) ≡ (any_segment t j segs || any_segment t j more)
any_segment-split t j [] more = refl
any_segment-split t j (s ∷ segs) more = ground (arith, any_segment-split t j segs more)

module _ (fl : Float64) where
  -- The index has the segments it had, and maybe more behind them.
  abbrev Grown : List Segment → Index fl → Type 0
  Grown segs idx = (more : List Segment) × (idx.segments ≡ segs ++ more)

  Grown-trans :
      (segs : List Segment) (idx idx' : Index fl)
      → Grown segs idx
      → Grown idx.segments idx'
      → Grown segs idx'
  Grown-trans segs idx idx' (m, e) (n, e') = (m ++ n, rw (e', e) (append_assoc segs m n))

  flush_if_full-Grown :
      (sorting : Sorting) (idx : Index fl) → Grown idx.segments (flush_if_full fl sorting idx)
  unfolding flush_if_full flush
  flush_if_full-Grown sorting idx = elim (Bool-cases (is_full fl sorting idx)) [
    | inl e ↦ (record { postings = idx.buffer; docs = idx.buffer_docs } ∷ [], rw e)
    | inr e ↦ ([], rw (e, append-nil idx.segments))
  ]

  add-Grown :
      (sorting : Sorting) (d : Str) (field : Option Str) (tokens : List Token) (idx : Index fl)
      → Grown idx.segments (add fl sorting d field tokens idx)
  unfolding add clear_tombstone
  add-Grown sorting d field tokens idx =
      let (tombs, segs) = add_tokens-frame fl d field tokens (clear_tombstone fl d idx) in
      let idx' = add_tokens fl d field tokens (clear_tombstone fl d idx) in
      let (more, e) = flush_if_full-Grown sorting (record idx' {
        buffer_docs = insert d tt idx'.buffer_docs;
        doc_count = increment idx'.doc_count;
      }) in
      (more, e ∙ ap (λ k. k ++ more) segs)

  add_raw-Grown :
      (sorting : Sorting) (d field value : Str) (idx : Index fl)
      → Grown idx.segments (add_raw fl sorting d field value idx)
  unfolding add_raw clear_tombstone
  add_raw-Grown sorting d field value idx =
      let idx' = clear_tombstone fl d idx in
      let term = field ++ (b':' ∷ value) in
      flush_if_full-Grown sorting (record idx' {
        trie = Trie.insert term idx'.trie;
        buffer = add_posting term d 0 idx'.buffer;
        buffer_docs = insert d tt idx'.buffer_docs;
        doc_count = increment idx'.doc_count;
        token_count = idx'.token_count + 1;
      })

  tick-Grown : (sorting : Sorting) (idx : Index fl) → Grown idx.segments (tick fl sorting idx)
  unfolding tick flush
  tick-Grown sorting idx = elim (Bool-cases (ltb 0 (length idx.buffer_docs))) [
    | inl e ↦ (record { postings = idx.buffer; docs = idx.buffer_docs } ∷ [], rw e)
    | inr e ↦ ([], rw (e, append-nil idx.segments))
  ]

  flush-Grown : (sorting : Sorting) (idx : Index fl) → Grown idx.segments (flush fl sorting idx)
  unfolding flush
  flush-Grown sorting idx = (record { postings = idx.buffer; docs = idx.buffer_docs } ∷ [], refl)

  -- What `merge_swap` makes of an index that has `more` behind the segments of the view.
  abbrev swapped : MergeView → List Segment → Index fl → Index fl
  swapped view more idx = record idx {
    segments = merge_segments view.tombstones view.segments no_segment ∷ more;
    tombstones = delete_ids view.tombstones idx.tombstones;
  }

  merge_swap-swapped :
      (view : MergeView) (more : List Segment) (idx : Index fl)
      → idx.segments ≡ view.segments ++ more
      → merge_swap fl view idx ≡ some (swapped view more idx)
  unfolding merge_swap
  merge_swap-swapped view more idx e =
      rw (e, drop-append view.segments more) (ground (arith, length-append view.segments more))

  visible-swapped :
      (view : MergeView) (more : List Segment) (idx : Index fl) (t j : Str)
      → SegmentsOk view.segments
      → idx.segments ≡ view.segments ++ more
      → has j view.tombstones ≡ false
      → visible fl (swapped view more idx) t j ≡ visible fl idx t j
  unfolding lookup
  visible-swapped view more idx t j ok e dead = rw e (
      ground (
        arith,
        has-delete_ids view.tombstones idx.tombstones j,
        has_posting-merge_segments view.tombstones view.segments no_segment t j ok,
        any_segment-split t j view.segments more,
      ))

  record Invariant (s : State fl) : Type 0 where
    index : IsWellFormed fl s.index
    flight : (view : MergeView) → s.flight ≡ some view → Grown view.segments s.index

  Grown-Invariant :
      (s : State fl) (idx : Index fl)
      → Invariant s
      → IsWellFormed fl idx
      → Grown s.index.segments idx
      → Invariant (record s { index = idx })
  Grown-Invariant s idx inv w g = record {
    index = w;
    flight = λ view e. Grown-trans view.segments s.index idx (inv.flight view e) g;
  }

  same-Grown : (idx : Index fl) → Grown idx.segments idx
  same-Grown idx = ([], sym (append-nil idx.segments))

  some-inj : {A : Type 0} (a b : A) → some a ≡ some b → a ≡ b
  some-inj a b e = cc

  ends-Invariant :
      (s : State fl) (view : MergeView) (idx : Index fl)
      → Invariant s
      → s.flight ≡ some view
      → merge_swap fl view s.index ≡ some idx
      → Invariant (record { index = idx; flight = none })
  ends-Invariant s view idx inv hf hm =
      let (more, e) = inv.flight view hf in
      let eq = some-inj _ _ (sym (merge_swap-swapped view more s.index e) ∙ hm) in
      let ok = subst SegmentsOk e inv.index.segments in
      record {
        index = subst (IsWellFormed fl) eq (record {
          buffer = inv.index.buffer;
          segments = (
            merge_segments-PostingsOk view.tombstones view.segments no_segment
                (SegmentsOk-left view.segments more ok) tt,
            SegmentsOk-right view.segments more ok,
          );
        });
        flight = λ v h. absurd (cc);
      }

  module _ (sorting : Sorting) where
    Step-Invariant : {s s' : State fl} → Step fl sorting s s' → Invariant s → Invariant s'
    unfolding delete_posting merge_view
    Step-Invariant (adds s d field tokens) inv =
        Grown-Invariant s _ inv (add-IsWellFormed fl sorting d field tokens s.index inv.index)
          (add-Grown sorting d field tokens s.index)
    Step-Invariant (adds_raw s d field value) inv =
        Grown-Invariant s _ inv (add_raw-IsWellFormed fl sorting d field value s.index inv.index)
          (add_raw-Grown sorting d field value s.index)
    Step-Invariant (deletes s d) inv = record {
      index = record { buffer = inv.index.buffer; segments = inv.index.segments };
      flight = inv.flight;
    }
    Step-Invariant (flushes s) inv =
        Grown-Invariant s _ inv (flush-IsWellFormed fl sorting s.index inv.index)
          (flush-Grown sorting s.index)
    Step-Invariant (ticks s) inv =
        Grown-Invariant s _ inv (tick-IsWellFormed fl sorting s.index inv.index)
          (tick-Grown sorting s.index)
    Step-Invariant (merge_starts s h) inv = record {
      index = inv.index;
      flight =
          λ view e. subst (λ v. Grown v.segments s.index) (some-inj _ _ e) (same-Grown s.index);
    }
    Step-Invariant (merge_ends s view idx hf hm) inv = ends-Invariant s view idx inv hf hm

    Reach-Invariant : (a b c : ℕ) (s : State fl) → Reach fl sorting a b c s → Invariant s
    Reach-Invariant a b c _ start = record {
      index = record { buffer = tt; segments = tt };
      flight = λ view e. absurd (cc);
    }
    Reach-Invariant a b c _ (later r st) = Step-Invariant st (Reach-Invariant a b c _ r)

    -- In every state that adds, raw adds, deletes, flushes, timer ticks and merges reach from an
    -- empty index, with any of the other calls between the two locked sections of a merge but with
    -- at most one merge under way, that merge ends without a slice out of range; it leaves an
    -- index whose postings are well formed, and what is visible of a document that was not deleted
    -- when the merge began stays as it is.
    pub merge_swap-Reach :
        (flush_size max_tokens max_segments : ℕ) (s : State fl) (view : MergeView) (t j : Str)
        → Reach fl sorting flush_size max_tokens max_segments s
        → s.flight ≡ some view
        → has j view.tombstones ≡ false
        → (idx : Index fl) × (merge_swap fl view s.index ≡ some idx)
          × IsWellFormed fl idx
          × (visible fl idx t j ≡ visible fl s.index t j)
    merge_swap-Reach a b c s view t j r hf dead =
        let inv = Reach-Invariant a b c s r in
        let (more, e) = inv.flight view hf in
        let ok = SegmentsOk-left view.segments more (subst SegmentsOk e inv.index.segments) in
        let eq = merge_swap-swapped view more s.index e in
        (
          swapped view more s.index,
          eq,
          (ends-Invariant s view _ inv hf eq).index,
          visible-swapped view more s.index t j ok e dead,
        )
