-- ===== src/Index/Inverted.antt =====
-- index/index.go: the inverted index. New postings go to a buffer, a flush makes the buffer an
-- immutable segment, a deletion is a tombstone, a merge makes one segment of all and drops what is
-- deleted. The calls hold the index's lock, so each is one step; a merge takes two.
pub mod Reports
pub mod Updates
pub mod Steps
pub mod Merging
pub mod Life
pub mod Listing
use go_search.Base.{
  ℕ, zero, suc, ◌+◌, Bool, true, false, ◌&&◌, ◌||◌, not, Option, none, some, List, [], ◌∷◌, ◌++◌,
  map, ltb, leb, ◌==◌, if◌then◌else◌, length, drop, Str, same, is_some, codes,
}
use go_search.Base.Int.{ℤ, pos, increment, decrement}
use go_search.Base.Map.{Map, lookup, lookup_or, value_or, insert, delete, has, StrSet}
use go_search.Base.Float.{Float64}
use go_search.Analysis.Token.{Token}
use go_search.Index.Posting.{Posting}
use go_search.Index.Segment.{
  Postings, Segment, postings_for, add_posting, purge, field_term, merge_segments, no_segment,
  delete_ids, MergeView, insert_ids, add_segments, buffer_live, term_list,
}
use go_search.Index.Trie
use go_search.Index.Trie.{TrieNode, new_trie}
use go_search.Index.KdTree.Ranges.{is_built, multi_range, kd_entry_matches_bounds}
use go_search.Index.KdTree.{
  KdTree, KdEntry, FieldBound, Sorting, new_kd_tree, build, delete_doc, write_node,
}

-- `merging` is the flag of a background merge that a flush has started.
pub record Index (fl : Float64) : Type 0 where
  pub trie : TrieNode
  pub buffer : Postings
  pub buffer_docs : StrSet
  pub segments : List Segment
  pub tombstones : StrSet
  pub flush_size : ℕ
  pub max_tokens : ℕ
  pub max_segments : ℕ
  pub doc_count : ℤ
  pub token_count : ℕ
  pub merging : Bool
  pub kd : KdTree fl.F
  pub kd_entries : Map (KdEntry fl.F)

-- `NewWithFlushSize(0)` with this policy: an empty index.
abbrev pub new_index : (fl : Float64) → ℕ → ℕ → ℕ → Index fl
new_index fl flush_size max_tokens max_segments = record {
  trie = new_trie;
  buffer = [];
  buffer_docs = [];
  segments = [];
  tombstones = [];
  flush_size = flush_size;
  max_tokens = max_tokens;
  max_segments = max_segments;
  doc_count = pos 0;
  token_count = 0;
  merging = false;
  kd = new_kd_tree fl.F;
  kd_entries = [];
}

module _ (fl : Float64) where
  -- `postingsMap` of `Lookup`, with the segments in the order in which they took the lock.
  unfoldable pub lookup_map : Index fl → List Segment → Str → Map Posting
  unfolding add_segments buffer_live
  lookup_map idx order term =
      add_segments idx.tombstones term order
        (buffer_live idx.tombstones (postings_for term idx.buffer))

  unfoldable pub lookup_postings : Index fl → List Segment → Str → List Posting
  unfolding lookup_map
  lookup_postings idx order term = map (λ kv. kv.1) (lookup_map idx order term)

  unfoldable pub clear_tombstone : Str → Index fl → Index fl
  unfolding purge
  clear_tombstone doc_id idx = record idx {
    tombstones = delete doc_id idx.tombstones;
    buffer =
        if has doc_id idx.tombstones && has doc_id idx.buffer_docs
        then purge doc_id idx.buffer
        else idx.buffer;
  }

  -- The loop of `Add` over the tokens.
  unfoldable pub add_tokens : Str → Option Str → List Token → Index fl → Index fl
  unfolding add_posting
  add_tokens doc_id field [] idx = idx
  add_tokens doc_id field (token ∷ tokens) idx =
      let term = field_term field token.term in
      add_tokens doc_id field tokens (record idx {
        trie = Trie.insert term idx.trie;
        buffer = add_posting term doc_id token.position idx.buffer;
        token_count = idx.token_count + 1;
      })

  module _ (sorting : Sorting) where
    -- `Flush`; a background merge is started if none is running and there are too many segments.
    unfoldable pub flush : Index fl → Index fl
    flush idx =
        let segments =
          idx.segments ++ (record { postings = idx.buffer; docs = idx.buffer_docs } ∷ []) in
        record idx {
          segments = segments;
          buffer = [];
          buffer_docs = [];
          kd =
              if length idx.kd_entries == 0
              then idx.kd
              else build fl sorting (map (λ kv. kv.1) idx.kd_entries);
          merging =
              idx.merging || (ltb 0 idx.max_segments && ltb idx.max_segments (length segments));
        }

    abbrev pub is_full : Index fl → Bool
    is_full idx =
        (ltb 0 idx.max_tokens && leb idx.max_tokens idx.token_count)
        || (ltb 0 idx.flush_size && leb idx.flush_size (length idx.buffer_docs))

    unfoldable pub flush_if_full : Index fl → Index fl
    unfolding flush
    flush_if_full idx = if is_full idx then record (flush idx) { token_count = 0 } else idx

    -- `Add`, given the tokens that the analyzer makes of the text.
    unfoldable pub add : Str → Option Str → List Token → Index fl → Index fl
    unfolding flush_if_full clear_tombstone add_tokens
    add doc_id field tokens idx =
        let idx' = add_tokens doc_id field tokens (clear_tombstone doc_id idx) in
        flush_if_full (record idx' {
          buffer_docs = insert doc_id tt idx'.buffer_docs;
          doc_count = increment idx'.doc_count;
        })

    unfoldable pub add_raw : Str → Str → Str → Index fl → Index fl
    unfolding flush_if_full clear_tombstone add_posting
    add_raw doc_id field value idx =
        let idx' = clear_tombstone doc_id idx in
        let term = field ++ (b':' ∷ value) in
        flush_if_full (record idx' {
          trie = Trie.insert term idx'.trie;
          buffer = add_posting term doc_id 0 idx'.buffer;
          buffer_docs = insert doc_id tt idx'.buffer_docs;
          doc_count = increment idx'.doc_count;
          token_count = idx'.token_count + 1;
        })

    -- `flushOnInterval`, at a tick.
    unfoldable pub tick : Index fl → Index fl
    unfolding flush
    tick idx =
        if ltb 0 (length idx.buffer_docs) then record (flush idx) { token_count = 0 } else idx

  unfoldable pub delete_posting : Str → Index fl → Index fl
  delete_posting doc_id idx = record idx {
    tombstones = insert doc_id tt idx.tombstones;
    doc_count = decrement idx.doc_count;
  }

  unfoldable pub segment_terms : List Segment → StrSet → StrSet
  unfolding insert_ids term_list
  segment_terms [] set = set
  segment_terms (seg ∷ segs) set = segment_terms segs (insert_ids (term_list seg) set)

  unfoldable pub terms : Index fl → List Str
  unfolding segment_terms
  terms idx =
      map (λ kv. kv.0) (segment_terms idx.segments (insert_ids (map (λ kv. kv.0) idx.buffer) []))

  -- The two locked sections of `Merge`; `none` is a slice out of range.
  unfoldable pub merge_view : Index fl → MergeView
  merge_view idx = record { segments = idx.segments; tombstones = idx.tombstones }

  unfoldable pub merge_swap : MergeView → Index fl → Option (Index fl)
  unfolding merge_segments delete_ids
  merge_swap view idx =
      let merged = merge_segments view.tombstones view.segments no_segment in
      if leb (length view.segments) (length idx.segments)
      then some (record idx {
        segments = merged ∷ drop (length view.segments) idx.segments;
        tombstones = delete_ids view.tombstones idx.tombstones;
      })
      else none

  -- `Merge` with nothing in between.
  unfoldable pub merge : Index fl → Option (Index fl)
  unfolding merge_swap merge_view
  merge idx = merge_swap (merge_view idx) idx

  -- `Snapshot` and `Restore`
  unfoldable pub snapshot : Index fl → List Segment × StrSet
  snapshot idx = (idx.segments, idx.tombstones)

  unfoldable pub count_docs : List Str → StrSet → ℤ → ℤ
  count_docs [] tombstones n = n
  count_docs (id ∷ ids) tombstones n =
      count_docs ids tombstones (if has id tombstones then n else increment n)

  unfoldable pub count_segments : List Segment → StrSet → ℤ → ℤ
  unfolding count_docs
  count_segments [] tombstones n = n
  count_segments (seg ∷ segs) tombstones n =
      count_segments segs tombstones (count_docs (map (λ kv. kv.0) seg.docs) tombstones n)

  unfoldable pub restore : List Segment → StrSet → Index fl → Index fl
  unfolding count_segments
  restore segs tombstones idx = record idx {
    segments = segs;
    tombstones = tombstones;
    doc_count = count_segments segs tombstones (pos 0);
  }

  unfoldable pub prefix_search : Str → Index fl → Option (List Str)
  prefix_search prefix idx = Trie.search_terms prefix idx.trie

  -- The tree's live entry of a document has the same map of values as the index's entry.
  unfoldable pub add_numeric : Str → Str → fl.F → Index fl → Index fl
  unfolding write_node
  add_numeric field doc_id value idx =
      let entry =
        value_or (record { values = []; doc_id = doc_id; deleted = false })
          (lookup doc_id idx.kd_entries) in
      record idx {
        kd = record idx.kd {
          root = elim idx.kd.root [ none ↦ none | some n ↦ some (write_node field doc_id value n) ];
        };
        kd_entries =
            insert doc_id
              (record entry { values = insert field value entry.values; doc_id = doc_id })
              idx.kd_entries;
      }

  unfoldable pub delete_numeric : Str → Index fl → Index fl
  delete_numeric doc_id idx = record idx {
    kd_entries = delete doc_id idx.kd_entries;
    kd = delete_doc doc_id idx.kd;
  }

  -- The scan of the entries that a query before the first flush makes.
  unfoldable pub scan_entries : List (FieldBound fl.F) → Map (KdEntry fl.F) → List Str
  scan_entries bounds [] = []
  scan_entries bounds ((doc_id, entry) ∷ entries) =
      let rest = scan_entries bounds entries in
      if kd_entry_matches_bounds fl entry bounds then entry.doc_id ∷ rest else rest

  unfoldable pub multi_range_query : List (FieldBound fl.F) → Index fl → List Str
  unfolding scan_entries
  multi_range_query bounds idx =
      if is_built fl idx.kd
      then multi_range fl idx.kd bounds
      else scan_entries bounds idx.kd_entries
