-- ===== src/Index/Segment.antt =====
-- index/segment.go, and what index/index.go does with postings: adding one, merging segments and
-- looking a term up in them.
pub mod WellFormed
pub mod Visible
use go_search.Base.{
  ℕ, ◌+◌, Bool, ◌||◌, false, Option, none, some, List, [], ◌∷◌, ◌++◌, map, ◌==◌, if◌then◌else◌,
  length, Str,
}
use go_search.Base.Map.{Map, lookup, lookup_or, insert, delete, has, StrSet}
use go_search.Index.Posting.{Posting}

-- term → docID → Posting
abbrev pub Postings : Type 0
Postings = Map (Map Posting)

pub record Segment : Type 0 where
  pub postings : Postings
  pub docs : StrSet

abbrev pub postings_for : Str → Postings → Map Posting
postings_for term postings = lookup_or [] term postings

-- Whether a document has a posting for a term here.
abbrev pub has_posting : Str → Str → Postings → Bool
has_posting term doc_id postings = has doc_id (postings_for term postings)

-- One more occurrence of a term in a document.
abbrev pub occur : Str → ℕ → Option Posting → Posting
occur doc_id position none = record { doc_id = doc_id; frequency = 1; positions = position ∷ [] }
occur doc_id position (some p) = record p {
  frequency = p.frequency + 1;
  positions = p.positions ++ (position ∷ []);
}

unfoldable pub add_posting : Str → Str → ℕ → Postings → Postings
add_posting term doc_id position buffer =
    let docs = postings_for term buffer in
    insert term (insert doc_id (occur doc_id position (lookup doc_id docs)) docs) buffer

-- The terms of the buffer without a document; a term that has no document left goes.
unfoldable pub purge : Str → Postings → Postings
purge doc_id [] = []
purge doc_id ((term, docs) ∷ buffer) =
    let rest = purge doc_id buffer in
    if length (delete doc_id docs) == 0 then delete term rest else (term, delete doc_id docs) ∷ rest

-- `*fieldName + ":" + term`
abbrev pub field_term : Option Str → Str → Str
field_term none term = term
field_term (some field) term = field ++ (b':' ∷ term)

-- The merge of segments, oldest first: a later posting replaces an earlier one of its key.
unfoldable pub merge_docs : StrSet → Map Posting → Map Posting → Map Posting
merge_docs tombstones [] merged = merged
merge_docs tombstones ((doc_id, posting) ∷ docs) merged =
    merge_docs tombstones docs
      (if has doc_id tombstones then merged else insert doc_id posting merged)

unfoldable pub merge_doc_ids : StrSet → Map Posting → StrSet → StrSet
merge_doc_ids tombstones [] ids = ids
merge_doc_ids tombstones ((doc_id, posting) ∷ docs) ids =
    merge_doc_ids tombstones docs (if has doc_id tombstones then ids else insert doc_id tt ids)

unfoldable pub merge_terms : StrSet → Postings → Segment → Segment
unfolding merge_docs merge_doc_ids
merge_terms tombstones [] merged = merged
merge_terms tombstones ((term, docs) ∷ postings) merged = merge_terms tombstones postings (record {
  postings =
      insert term (merge_docs tombstones docs (postings_for term merged.postings)) merged.postings;
  docs = merge_doc_ids tombstones docs merged.docs;
})

unfoldable pub merge_segments : StrSet → List Segment → Segment → Segment
unfolding merge_terms
merge_segments tombstones [] merged = merged
merge_segments tombstones (seg ∷ segs) merged =
    merge_segments tombstones segs (merge_terms tombstones seg.postings merged)

abbrev pub no_segment : Segment
no_segment = record { postings = []; docs = [] }

unfoldable pub delete_ids : StrSet → StrSet → StrSet
delete_ids [] set = set
delete_ids ((id, u) ∷ ids) set = delete_ids ids (delete id set)

-- `lookup` and `terms` of index/segment.go
unfoldable pub segment_lookup : Str → Segment → List Posting
segment_lookup term seg = map (λ kv. kv.1) (postings_for term seg.postings)

unfoldable pub term_list : Segment → List Str
term_list seg = map (λ kv. kv.0) seg.postings

-- What a merge takes with it under the read lock.
pub record MergeView : Type 0 where
  pub segments : List Segment
  pub tombstones : StrSet

unfoldable pub insert_ids : List Str → StrSet → StrSet
insert_ids [] set = set
insert_ids (id ∷ ids) set = insert_ids ids (insert id tt set)

-- `Lookup`: the segments report in any order, and each overwrites what it finds.
unfoldable pub add_live : StrSet → Map Posting → Map Posting → Map Posting
add_live tombstones [] found = found
add_live tombstones ((doc_id, posting) ∷ docs) found =
    add_live tombstones docs
      (if has posting.doc_id tombstones then found else insert posting.doc_id posting found)

unfoldable pub add_segments : StrSet → Str → List Segment → Map Posting → Map Posting
unfolding add_live
add_segments tombstones term [] found = found
add_segments tombstones term (seg ∷ order) found =
    add_segments tombstones term order (add_live tombstones (postings_for term seg.postings) found)

-- The buffer is filtered by its keys, as a merge filters a segment.
unfoldable pub buffer_live : StrSet → Map Posting → Map Posting
unfolding merge_docs
buffer_live tombstones docs = merge_docs tombstones docs []

-- Some segment of the list has a posting of the term for the document.
abbrev pub any_segment : Str → Str → List Segment → Bool
any_segment term doc_id [] = false
any_segment term doc_id (seg ∷ segs) =
    has_posting term doc_id seg.postings || any_segment term doc_id segs
