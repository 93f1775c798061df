-- ===== src/Index/Segment/Visible.antt =====
-- Which documents a lookup of index/index.go reports, and what a merge keeps.
use go_search.Base.{
  ℕ, ◌≡◌, refl, ◌∙◌, true, false, not, ◌&&◌, ◌||◌, none, List, [], ◌∷◌, arith, length, Str, same,
  same_iff, inl, inr, Bool-cases, if◌then◌else◌, ◌==◌,
}
use go_search.Base.Map.{Map, lookup, insert, delete, has, lookup-insert, lookup-delete, StrSet}
use go_search.Index.Posting.{Posting}
use go_search.Index.Segment.{
  Postings, Segment, postings_for, has_posting, occur, add_posting, purge, merge_docs,
  merge_doc_ids, merge_terms, merge_segments, any_segment, add_live, add_segments, buffer_live,
}
use go_search.Index.Segment.WellFormed.{DocsOk, PostingsOk, SegmentsOk, postings_for-DocsOk}

pub has-insert {ℓ} :
    {V : Type ℓ} (k j : Str) (v : V) (m : Map V) → has j (insert k v m) ≡ (same k j || has j m)
has-insert k j v m = rw lookup-insert (ground arith)

pub has-delete {ℓ} :
    {V : Type ℓ} (k j : Str) (m : Map V) → has j (delete k m) ≡ (not (same k j) && has j m)
has-delete k j m = rw lookup-delete (ground arith)

pub has-merge_docs :
    (tombstones : StrSet) (docs merged : Map Posting) (j : Str)
    → has j (merge_docs tombstones docs merged)
      ≡ ((not (has j tombstones) && has j docs) || has j merged)
unfolding merge_docs lookup
has-merge_docs tombstones [] merged j = ground arith
has-merge_docs tombstones ((i, p) ∷ docs) merged j = ground (
  arith,
  has-merge_docs tombstones docs merged j,
  has-merge_docs tombstones docs (insert i p merged) j,
  has-insert i j p merged,
  same_iff i j,
)

pub has-add_live :
    (tombstones : StrSet) (docs found : Map Posting) (j : Str)
    → DocsOk docs
    → has j (add_live tombstones docs found)
      ≡ ((not (has j tombstones) && has j docs) || has j found)
unfolding add_live lookup
has-add_live tombstones [] found j h = ground arith
has-add_live tombstones ((i, p) ∷ docs) found j (ok, h) = ground (
  arith,
  ok.own_id,
  has-add_live tombstones docs found j h,
  has-add_live tombstones docs (insert p.doc_id p found) j h,
  has-insert p.doc_id j p found,
  same_iff p.doc_id j,
  same_iff i j,
)

pub has-add_segments :
    (tombstones : StrSet) (term : Str) (order : List Segment) (found : Map Posting) (j : Str)
    → SegmentsOk order
    → has j (add_segments tombstones term order found)
      ≡ ((not (has j tombstones) && any_segment term j order) || has j found)
unfolding add_segments
has-add_segments tombstones term [] found j h = ground arith
has-add_segments tombstones term (seg ∷ order) found j (hs, h) =
    let docs = postings_for term seg.postings in
    ground (
      arith,
      has-add_segments tombstones term order (add_live tombstones docs found) j h,
      has-add_live tombstones docs found j (postings_for-DocsOk term seg.postings hs),
    )

pub has-buffer_live :
    (tombstones : StrSet) (docs : Map Posting) (j : Str)
    → has j (buffer_live tombstones docs) ≡ (not (has j tombstones) && has j docs)
unfolding buffer_live
has-buffer_live tombstones docs j =
    has-merge_docs tombstones docs [] j ∙ (unfold lookup in ground arith)

-- Postings under one term after a write to the map of terms.
pub has_posting-insert :
    (term t j : Str) (docs : Map Posting) (postings : Postings)
    → has_posting t j (insert term docs postings)
      ≡ (if same term t then has j docs else has_posting t j postings)
has_posting-insert term t j docs postings = rw lookup-insert (ground arith)

pub has_posting-delete :
    (term t j : Str) (postings : Postings)
    → has_posting t j (delete term postings)
      ≡ (if same term t then false else has_posting t j postings)
unfolding lookup
has_posting-delete term t j postings = rw lookup-delete (ground arith)

pub has_posting-add_posting :
    (term doc_id : Str) (position : ℕ) (buffer : Postings) (t j : Str)
    → has_posting t j (add_posting term doc_id position buffer)
      ≡ ((same term t && same doc_id j) || has_posting t j buffer)
unfolding add_posting
has_posting-add_posting term doc_id position buffer t j =
    let docs = postings_for term buffer in
    let p = occur doc_id position (lookup doc_id docs) in
    ground (
      arith,
      has_posting-insert term t j (insert doc_id p docs) buffer,
      has-insert doc_id j p docs,
      same_iff term t,
    )

empty_has : {V : Type 0} (m : Map V) (j : Str) → (length m == 0) ≡ true → has j m ≡ false
unfolding lookup
empty_has [] j h = refl
empty_has (x ∷ m) j h = ground arith

-- Purging a document takes it from every term, and takes nothing else.
pub has_posting-purge :
    (doc_id : Str) (buffer : Postings) (t j : Str)
    → has_posting t j (purge doc_id buffer) ≡ (not (same doc_id j) && has_posting t j buffer)
unfolding purge lookup
has_posting-purge doc_id [] t j = ground arith
has_posting-purge doc_id ((term, docs) ∷ buffer) t j =
    elim (Bool-cases (length (delete doc_id docs) == 0)) [
      | inl e ↦ rw e (
          ground (
            arith,
            has_posting-delete term t j (purge doc_id buffer),
            has_posting-purge doc_id buffer t j,
            empty_has (delete doc_id docs) j e,
            has-delete doc_id j docs,
          ))
      | inr e ↦ rw e (ground (arith, has_posting-purge doc_id buffer t j, has-delete doc_id j docs))
    ]

has_posting-none :
    (t j : Str) (postings : Postings) → lookup t postings ≡ none → has_posting t j postings ≡ false
unfolding lookup
has_posting-none t j postings h = rw h

pub has_posting-merge_terms :
    (tombstones : StrSet) (postings : Postings) (merged : Segment) (t j : Str)
    → PostingsOk postings
    → has_posting t j (merge_terms tombstones postings merged).postings
      ≡ ((not (has j tombstones) && has_posting t j postings) || has_posting t j merged.postings)
unfolding merge_terms lookup
has_posting-merge_terms tombstones [] merged t j h = ground arith
has_posting-merge_terms tombstones ((term, docs) ∷ postings) merged t j (fresh, hd, h) =
    let old = postings_for term merged.postings in
    ground (
      arith,
      has_posting-merge_terms tombstones postings
          (record {
            postings = insert term (merge_docs tombstones docs old) merged.postings;
            docs = merge_doc_ids tombstones docs merged.docs;
          })
          t j h,
      has_posting-insert term t j (merge_docs tombstones docs old) merged.postings,
      has-merge_docs tombstones docs old j,
      has_posting-none term j postings fresh,
      same_iff term t,
    )

pub has_posting-merge_segments :
    (tombstones : StrSet) (segs : List Segment) (merged : Segment) (t j : Str)
    → SegmentsOk segs
    → has_posting t j (merge_segments tombstones segs merged).postings
      ≡ ((not (has j tombstones) && any_segment t j segs) || has_posting t j merged.postings)
unfolding merge_segments
has_posting-merge_segments tombstones [] merged t j h = ground arith
has_posting-merge_segments tombstones (seg ∷ segs) merged t j (hs, h) = ground (
  arith,
  has_posting-merge_segments tombstones segs (merge_terms tombstones seg.postings merged) t j h,
  has_posting-merge_terms tombstones seg.postings merged t j hs,
)
