-- ===== src/Tests/Indexes.antt =====
-- index/index.go and index/trie.go on concrete inputs.
use go_search.Base.{
  ℕ, ◌≡◌, ◌↔◌, refl, true, not, ◌&&◌, ◌||◌, some, none, List, [], ◌∷◌, ◌∈◌, codes, ltb, same,
  has_prefix,
}
use go_search.Base.Map.{has, lookup, lookup-empty}
use go_search.Base.Float.{Float64}
use go_search.Analysis.Token.{Token}
use go_search.Index.Trie.{insert_all, new_trie, search_terms}
use go_search.Index.Trie.Search.{results, search_terms_iff}
use go_search.Index.Segment.{Segment, has_posting, any_segment}
use go_search.Index.Inverted.{
  Index, new_index, add, flush, merge, merge_view, merge_swap, lookup_map, delete_posting,
}
use go_search.Index.Inverted.Reports.{Enumerates, IsWellFormed, visible, has-lookup_map}
use go_search.Index.Inverted.Updates.{added, merged_index}
use go_search.Index.Inverted.Steps.{State, start, later, merge_starts, adds}
use go_search.Index.Inverted.Merging.{merge_swap-Reach}
use go_search.Index.Inverted.Life.{
  lookup-add, lookup-flush, lookup-delete, add_again-stale, lookup-merge,
}
use go_search.Tests.Sorters.{insertion}

-- Naturals below 1000 in place of float64.
abbrev numbers : Float64
numbers = record { F = ℕ; lt = ltb; zero = 0; pos_inf = 1000; neg_inf = 0 }

abbrev empty_index : Index numbers
empty_index = new_index numbers 0 128 10

abbrev words : List Token
words =
    record { term = codes "cat"; position = 0 } ∷ record { term = codes "dog"; position = 1 } ∷ []

abbrev cats : Segment
cats = record {
  postings =
      (
        codes "cat",
        (codes "d1", record { doc_id = codes "d1"; frequency = 1; positions = 0 ∷ [] }) ∷ [],
      )
      ∷ [];
  docs = (codes "d1", tt) ∷ [];
}

-- One document in a segment and another in the buffer.
abbrev small_index : Index numbers
small_index = record empty_index {
  segments = cats ∷ [];
  buffer =
      (
        codes "dog",
        (codes "d2", record { doc_id = codes "d2"; frequency = 1; positions = 0 ∷ [] }) ∷ [],
      )
      ∷ [];
  buffer_docs = (codes "d2", tt) ∷ [];
}

small_index-IsWellFormed : IsWellFormed numbers small_index
small_index-IsWellFormed = record {
  buffer = (lookup-empty (codes "dog"), (record { own_id = refl; counted = refl }, tt), tt);
  segments = ((lookup-empty (codes "cat"), (record { own_id = refl; counted = refl }, tt), tt), tt);
}

d1_in_segment : any_segment (codes "cat") (codes "d1") small_index.segments ≡ true
unfolding lookup same
d1_in_segment = refl

in_order : (segs : List Segment) → Enumerates segs segs
in_order segs seg = (λ m. m, λ m. m)

search_terms_iff_example :
    (codes "cat"
      ∈ results (search_terms (codes "ca") (insert_all (codes "cat" ∷ codes "dog" ∷ []) new_trie)))
    ↔ ((codes "cat" ∈ (codes "cat" ∷ codes "dog" ∷ []))
        × (has_prefix (codes "cat") (codes "ca") ≡ true))
search_terms_iff_example =
    search_terms_iff (codes "cat" ∷ codes "dog" ∷ []) (codes "ca") (codes "cat")

has-lookup_map_example :
    has (codes "d1") (lookup_map numbers small_index (cats ∷ []) (codes "cat"))
    ≡ visible numbers small_index (codes "cat") (codes "d1")
has-lookup_map_example =
    has-lookup_map numbers small_index (cats ∷ []) (codes "cat") (codes "d1")
      small_index-IsWellFormed (in_order (cats ∷ []))

lookup-add_example :
    has (codes "d3") (
      lookup_map numbers
        (add numbers insertion (codes "d3") none words small_index)
        (add numbers insertion (codes "d3") none words small_index).segments
        (codes "cat"))
    ≡ added numbers (codes "d3") none words small_index (codes "cat") (codes "d3")
lookup-add_example =
    lookup-add numbers insertion (codes "d3") none words small_index
      (add numbers insertion (codes "d3") none words small_index).segments (codes "cat")
      (codes "d3") small_index-IsWellFormed
      (in_order (add numbers insertion (codes "d3") none words small_index).segments)

lookup-flush_example :
    has (codes "d2") (
      lookup_map numbers
        (flush numbers insertion small_index)
        (flush numbers insertion small_index).segments
        (codes "dog"))
    ≡ has (codes "d2") (lookup_map numbers small_index (cats ∷ []) (codes "dog"))
lookup-flush_example =
    lookup-flush numbers insertion small_index (cats ∷ [])
      (flush numbers insertion small_index).segments (codes "dog") (codes "d2")
      small_index-IsWellFormed (in_order (cats ∷ []))
      (in_order (flush numbers insertion small_index).segments)

lookup-delete_example :
    has (codes "d1") (
      lookup_map numbers
        (delete_posting numbers (codes "d1") small_index)
        (cats ∷ [])
        (codes "cat"))
    ≡ (not (same (codes "d1") (codes "d1"))
        && has (codes "d1") (lookup_map numbers small_index (cats ∷ []) (codes "cat")))
lookup-delete_example =
    lookup-delete numbers small_index (codes "d1") (cats ∷ []) (codes "cat") (codes "d1")
      small_index-IsWellFormed (in_order (cats ∷ []))

add_again-stale_example :
    has (codes "d1") (
      lookup_map numbers
        (add numbers insertion
          (codes "d1")
          none
          []
          (delete_posting numbers (codes "d1") small_index))
        (add numbers insertion
          (codes "d1")
          none
          []
          (delete_posting numbers (codes "d1") small_index)).segments
        (codes "cat"))
    ≡ true
add_again-stale_example =
    add_again-stale numbers insertion (codes "d1") none [] small_index
      (add numbers insertion (codes "d1") none []
        (delete_posting numbers (codes "d1") small_index)).segments
      (codes "cat") small_index-IsWellFormed d1_in_segment
      (in_order
        (add numbers insertion (codes "d1") none []
          (delete_posting numbers (codes "d1") small_index)).segments)

abbrev merging_index : Index numbers
merging_index = record small_index { tombstones = (codes "d2", tt) ∷ [] }

lookup-merge_example :
    (merge numbers merging_index ≡ some (merged_index numbers merging_index))
    × (has (codes "d2") (
          lookup_map numbers
            (merged_index numbers merging_index)
            (merged_index numbers merging_index).segments
            (codes "dog"))
        ≡ (visible numbers merging_index (codes "dog") (codes "d2")
            || has_posting (codes "dog") (codes "d2") merging_index.buffer))
lookup-merge_example =
    lookup-merge numbers merging_index (merged_index numbers merging_index).segments (codes "dog")
      (codes "d2")
      (record {
        buffer = small_index-IsWellFormed.buffer;
        segments = small_index-IsWellFormed.segments;
      })
      (in_order (merged_index numbers merging_index).segments)

abbrev at_start : State numbers
at_start = record { index = empty_index; flight = none }

abbrev in_flight : State numbers
in_flight = record { index = empty_index; flight = some (merge_view numbers empty_index) }

-- A merge starts, and a document is added while it is under way.
abbrev added_meanwhile : State numbers
added_meanwhile = record in_flight {
  index = add numbers insertion (codes "d1") none words empty_index;
}

merge_swap-Reach_example :
    (idx : Index numbers) × (merge_swap numbers
        (merge_view numbers empty_index)
        added_meanwhile.index
      ≡ some idx)
    × IsWellFormed numbers idx
    × (visible numbers idx (codes "cat") (codes "d1")
        ≡ visible numbers added_meanwhile.index (codes "cat") (codes "d1"))
unfolding merge_view lookup
merge_swap-Reach_example =
    merge_swap-Reach numbers insertion 0 128 10 added_meanwhile (merge_view numbers empty_index)
      (codes "cat") (codes "d1")
      (later (later start (merge_starts at_start refl)) (adds in_flight (codes "d1") none words))
      refl refl
