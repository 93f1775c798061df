-- ===== src/Index/Inverted/Listing.antt =====
-- The postings that `Lookup` of index/index.go returns: one for each document that it reports.
use go_search.Base.{
  ◌≡◌, refl, Bool, false, ◌||◌, List, [], ◌∷◌, map, Str, same, inl, inr, Bool-cases,
}
use go_search.Base.Map.{Map, lookup, insert, has, StrSet}
use go_search.Base.Float.{Float64}
use go_search.Index.Posting.{Posting}
use go_search.Index.Segment.{Segment, postings_for, add_live, merge_docs, add_segments, buffer_live}
use go_search.Index.Segment.WellFormed.{DocsOk, postings_for-DocsOk}
use go_search.Index.Inverted.{Index, lookup_map, lookup_postings}
use go_search.Index.Inverted.Reports.{IsWellFormed}

-- Whether one of the postings is of the document.
abbrev pub lists : Str → List Posting → Bool
lists id [] = false
lists id (p ∷ postings) = same p.doc_id id || lists id postings

-- Each posting stands under its own document.
abbrev Own : Map Posting → Type 0
Own [] = Unit
Own ((doc_id, p) ∷ docs) = (p.doc_id ≡ doc_id) × Own docs

insert-Own :
    (doc_id : Str) (p : Posting) (docs : Map Posting)
    → p.doc_id ≡ doc_id
    → Own docs
    → Own (insert doc_id p docs)
unfolding insert
insert-Own doc_id p [] e o = (e, tt)
insert-Own doc_id p ((i, q) ∷ docs) e (f, o) = elim (Bool-cases (same i doc_id)) [
  | inl h ↦ rw h (e, o)
  | inr h ↦ rw h (f, insert-Own doc_id p docs e o)
]

add_live-Own :
    (tombstones : StrSet) (docs found : Map Posting)
    → Own found
    → Own (add_live tombstones docs found)
unfolding add_live
add_live-Own tombstones [] found o = o
add_live-Own tombstones ((i, p) ∷ docs) found o = elim (Bool-cases (has p.doc_id tombstones)) [
  | inl h ↦ rw h (add_live-Own tombstones docs found o)
  | inr h ↦
      rw h (
        add_live-Own tombstones docs (insert p.doc_id p found) (insert-Own p.doc_id p found refl o))
]

add_segments-Own :
    (tombstones : StrSet) (term : Str) (order : List Segment) (found : Map Posting)
    → Own found
    → Own (add_segments tombstones term order found)
unfolding add_segments
add_segments-Own tombstones term [] found o = o
add_segments-Own tombstones term (seg ∷ order) found o =
    add_segments-Own tombstones term order _
      (add_live-Own tombstones (postings_for term seg.postings) found o)

lists-has :
    (id : Str) (docs : Map Posting) → Own docs → lists id (map (λ kv. kv.1) docs) ≡ has id docs
unfolding lookup
lists-has id [] o = refl
lists-has id ((i, p) ∷ docs) (e, o) = elim (Bool-cases (same i id)) [
  | inl h ↦ rw (e, h)
  | inr h ↦ rw (e, h) (lists-has id docs o)
]

merge_docs-Own :
    (tombstones : StrSet) (docs found : Map Posting)
    → DocsOk docs
    → Own found
    → Own (merge_docs tombstones docs found)
unfolding merge_docs
merge_docs-Own tombstones [] found ok o = o
merge_docs-Own tombstones ((i, p) ∷ docs) found (ok, rest) o =
    elim (Bool-cases (has i tombstones)) [
      | inl h ↦ rw h (merge_docs-Own tombstones docs found rest o)
      | inr h ↦ rw h (
          merge_docs-Own tombstones docs (insert i p found) rest (insert-Own i p found ok.own_id o))
    ]

pub lists-lookup_postings :
    (fl : Float64) (idx : Index fl) (order : List Segment) (t j : Str)
    → IsWellFormed fl idx
    → lists j (lookup_postings fl idx order t) ≡ has j (lookup_map fl idx order t)
unfolding lookup_postings lookup_map buffer_live
lists-lookup_postings fl idx order t j w = lists-has j (lookup_map fl idx order t) (
    add_segments-Own idx.tombstones t order (buffer_live idx.tombstones (postings_for t idx.buffer))
      (merge_docs-Own idx.tombstones (postings_for t idx.buffer) []
        (postings_for-DocsOk t idx.buffer w.buffer) tt))
