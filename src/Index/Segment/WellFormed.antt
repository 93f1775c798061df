-- ===== src/Index/Segment/WellFormed.antt =====
-- Well-formed posting maps of index/index.go: each posting stands under its own document and counts
-- its positions, and a term stands once.
use go_search.Base.{
  ℕ, ◌≡◌, refl, Option, none, some, List, [], ◌∷◌, arith, length, length-append, Str, same,
  same_iff, inl, inr, Bool-cases, ◌==◌,
}
use mathlib.Core.Path.{subst}
use go_search.Base.Map.{
  Map, lookup, insert, delete, has, lookup-insert, lookup-delete, lookup-empty, StrSet,
}
use go_search.Index.Posting.{Posting}
use go_search.Index.Segment.{
  Postings, Segment, postings_for, occur, add_posting, purge, merge_docs, merge_terms,
  merge_segments,
}

pub record PostingOk (doc_id : Str) (p : Posting) : Type 0 where
  pub own_id : p.doc_id ≡ doc_id
  pub counted : p.frequency ≡ length p.positions

abbrev pub DocsOk : Map Posting → Type 0
DocsOk [] = Unit
DocsOk ((doc_id, p) ∷ docs) = PostingOk doc_id p × DocsOk docs

abbrev pub PostingsOk : Postings → Type 0
PostingsOk [] = Unit
PostingsOk ((term, docs) ∷ postings) =
    (lookup term postings ≡ none) × DocsOk docs × PostingsOk postings

abbrev pub SegmentsOk : List Segment → Type 0
SegmentsOk [] = Unit
SegmentsOk (seg ∷ segs) = PostingsOk seg.postings × SegmentsOk segs

pub insert-DocsOk :
    (doc_id : Str) (p : Posting) (docs : Map Posting)
    → PostingOk doc_id p
    → DocsOk docs
    → DocsOk (insert doc_id p docs)
unfolding insert
insert-DocsOk doc_id p [] ok h = (ok, tt)
insert-DocsOk doc_id p ((i, q) ∷ docs) ok (hq, h) = elim (Bool-cases (same i doc_id)) [
  | inl e ↦ rw e (ok, h)
  | inr e ↦ rw e (hq, insert-DocsOk doc_id p docs ok h)
]

pub delete-DocsOk : (doc_id : Str) (docs : Map Posting) → DocsOk docs → DocsOk (delete doc_id docs)
unfolding delete
delete-DocsOk doc_id [] h = tt
delete-DocsOk doc_id ((i, q) ∷ docs) (hq, h) = elim (Bool-cases (same i doc_id)) [
  | inl e ↦ rw e (delete-DocsOk doc_id docs h)
  | inr e ↦ rw e (hq, delete-DocsOk doc_id docs h)
]

pub lookup-PostingOk :
    (doc_id : Str) (docs : Map Posting) (p : Posting)
    → DocsOk docs
    → lookup doc_id docs ≡ some p
    → PostingOk doc_id p
unfolding lookup
lookup-PostingOk doc_id [] p h e = absurd (cc)
lookup-PostingOk doc_id ((i, q) ∷ docs) p (hq, h) e = elim (Bool-cases (same i doc_id)) [
  | inl s ↦
      let q_eq : q ≡ p = ground arith in
      subst (λ k. PostingOk k p) ((same_iff i doc_id).0 s) (subst (λ k. PostingOk i k) q_eq hq)
  | inr s ↦ lookup-PostingOk doc_id docs p h (ground arith)
]

pub insert-PostingsOk :
    (term : Str) (docs : Map Posting) (postings : Postings)
    → DocsOk docs
    → PostingsOk postings
    → PostingsOk (insert term docs postings)
unfolding insert
insert-PostingsOk term docs [] ok h = (lookup-empty term, ok, tt)
insert-PostingsOk term docs ((t, ds) ∷ postings) ok (fresh, hd, h) =
    elim (Bool-cases (same t term)) [
      | inl e ↦ rw e (subst (λ k. lookup k postings ≡ none) ((same_iff t term).0 e) fresh, ok, h)
      | inr e ↦ rw e (
        ground (arith, lookup-insert term t docs postings, same_iff term t, same_iff t term),
        hd,
        insert-PostingsOk term docs postings ok h,
      )
    ]

pub delete-PostingsOk :
    (term : Str) (postings : Postings) → PostingsOk postings → PostingsOk (delete term postings)
unfolding delete
delete-PostingsOk term [] h = tt
delete-PostingsOk term ((t, ds) ∷ postings) (fresh, hd, h) = elim (Bool-cases (same t term)) [
  | inl e ↦ rw e (delete-PostingsOk term postings h)
  | inr e ↦
      rw e (ground (arith, lookup-delete term t postings), hd, delete-PostingsOk term postings h)
]

pub postings_for-DocsOk :
    (term : Str) (postings : Postings) → PostingsOk postings → DocsOk (postings_for term postings)
unfolding lookup
postings_for-DocsOk term [] h = tt
postings_for-DocsOk term ((t, ds) ∷ postings) (fresh, hd, h) = elim (Bool-cases (same t term)) [
  | inl e ↦ rw e hd
  | inr e ↦ rw e (postings_for-DocsOk term postings h)
]

occur-PostingOk :
    (doc_id : Str) (position : ℕ) (o : Option Posting)
    → ((p : Posting) → o ≡ some p → PostingOk doc_id p)
    → PostingOk doc_id (occur doc_id position o)
occur-PostingOk doc_id position none h = record { own_id = refl; counted = refl }
occur-PostingOk doc_id position (some p) h = record {
  own_id = (h p refl).own_id;
  counted = omega (arith, (h p refl).counted, length-append p.positions (position ∷ []));
}

pub add_posting-PostingsOk :
    (term doc_id : Str) (position : ℕ) (buffer : Postings)
    → PostingsOk buffer
    → PostingsOk (add_posting term doc_id position buffer)
unfolding add_posting
add_posting-PostingsOk term doc_id position buffer h =
    let docs = postings_for term buffer in
    let ok = postings_for-DocsOk term buffer h in
    insert-PostingsOk term _ buffer
      (insert-DocsOk doc_id _ docs
        (occur-PostingOk doc_id position (lookup doc_id docs)
          (λ p e. lookup-PostingOk doc_id docs p ok e))
        ok)
      h

lookup-purge-none :
    (doc_id term : Str) (buffer : Postings)
    → lookup term buffer ≡ none
    → lookup term (purge doc_id buffer) ≡ none
unfolding lookup purge
lookup-purge-none doc_id term [] h = refl
lookup-purge-none doc_id term ((t, docs) ∷ buffer) h =
    ground (arith, lookup-purge-none doc_id term buffer, lookup-delete t term (purge doc_id buffer))

pub purge-PostingsOk :
    (doc_id : Str) (buffer : Postings) → PostingsOk buffer → PostingsOk (purge doc_id buffer)
unfolding purge
purge-PostingsOk doc_id [] h = tt
purge-PostingsOk doc_id ((term, docs) ∷ buffer) (fresh, hd, h) =
    elim (Bool-cases (length (delete doc_id docs) == 0)) [
      | inl e ↦
          rw e (delete-PostingsOk term (purge doc_id buffer) (purge-PostingsOk doc_id buffer h))
      | inr e ↦ rw e (
        lookup-purge-none doc_id term buffer fresh,
        delete-DocsOk doc_id docs hd,
        purge-PostingsOk doc_id buffer h,
      )
    ]

pub merge_docs-DocsOk :
    (tombstones : StrSet) (docs merged : Map Posting)
    → DocsOk docs
    → DocsOk merged
    → DocsOk (merge_docs tombstones docs merged)
unfolding merge_docs
merge_docs-DocsOk tombstones [] merged h hm = hm
merge_docs-DocsOk tombstones ((i, p) ∷ docs) merged (hp, h) hm =
    elim (Bool-cases (has i tombstones)) [
      | inl e ↦ rw e (merge_docs-DocsOk tombstones docs merged h hm)
      | inr e ↦
          rw e (
            merge_docs-DocsOk tombstones docs (insert i p merged) h
              (insert-DocsOk i p merged hp hm))
    ]

pub merge_terms-PostingsOk :
    (tombstones : StrSet) (postings : Postings) (merged : Segment)
    → PostingsOk postings
    → PostingsOk merged.postings
    → PostingsOk (merge_terms tombstones postings merged).postings
unfolding merge_terms
merge_terms-PostingsOk tombstones [] merged h hm = hm
merge_terms-PostingsOk tombstones ((term, docs) ∷ postings) merged (fresh, hd, h) hm =
    merge_terms-PostingsOk tombstones postings _ h (
      insert-PostingsOk term _ merged.postings
        (merge_docs-DocsOk tombstones docs (postings_for term merged.postings) hd
          (postings_for-DocsOk term merged.postings hm))
        hm)

pub merge_segments-PostingsOk :
    (tombstones : StrSet) (segs : List Segment) (merged : Segment)
    → SegmentsOk segs
    → PostingsOk merged.postings
    → PostingsOk (merge_segments tombstones segs merged).postings
unfolding merge_segments
merge_segments-PostingsOk tombstones [] merged h hm = hm
merge_segments-PostingsOk tombstones (seg ∷ segs) merged (hs, h) hm =
    merge_segments-PostingsOk tombstones segs _ h
      (merge_terms-PostingsOk tombstones seg.postings merged hs hm)
