-- ===== src/Engine/TermSearch.antt =====
-- The searches of engine/search.go by the terms of the index: `FuzzySearch`, `WildcardSearch` and
-- `PrefixSearch`. What the index reports are arguments, as is the regular expression.
pub mod Parts
pub mod Reached
pub mod Selected
use go_search.Base.{
  ℕ, ◌+◌, Bool, true, false, ◌&&◌, Option, none, some, List, [], ◌∷◌, ◌++◌, map, ltb, leb, ◌==◌,
  if◌then◌else◌, length, take, drop, Str, same, keep,
}
use mathlib.Core.Option
use go_search.Base.Int.{pos}
use go_search.Base.Map.{Map, lookup, lookup_or, insert, has, StrSet}
use go_search.Scoring.{bm25_score}
use go_search.Analysis.EditDistance.{edit_distance}
use go_search.Index.Posting.{Posting}
use go_search.Index.KdTree.{Sorting}
use go_search.Query.Match.{index_key}
use go_search.Engine.Document.{Document, Field, Result}
use go_search.Engine.Paging.{limit_to}
use go_search.Engine.Searcher.{Searcher, field_avg_doc_lens, boost_of}
use go_search.Engine.Search.{higher_score}

-- `strings.SplitN(term, ":", 2)[0]`
unfoldable pub before_colon : Str → Str
before_colon [] = []
before_colon (c ∷ term) = let rest = before_colon term in if c == b':' then [] else c ∷ rest

-- `strings.Split(term, ":")`: the first part, and the others.
unfoldable pub split_colon : Str → Str × List Str
split_colon [] = ([], [])
split_colon (c ∷ term) =
    let (part, parts) = split_colon term in
    if c == b':' then ([], part ∷ parts) else (c ∷ part, parts)

-- One index term: `none` is a second part that is out of range.
abbrev pub near_term : Str → Str → ℕ → Str × List Str → List Str → Option (List Str)
near_term field term max_distance (index_field, []) found = none
near_term field term max_distance (index_field, raw ∷ parts) found = some (
    if same field index_field && leb (edit_distance term raw) max_distance
    then index_key field raw ∷ found
    else found)

-- The terms of the field within the distance, as `FuzzySearch` looks them up; `none` is a panic.
unfoldable pub near_terms : Str → Str → ℕ → List Str → Option (List Str)
unfolding split_colon edit_distance
near_terms field term max_distance [] = some []
near_terms field term max_distance (index_term ∷ terms) =
    elim (near_terms field term max_distance terms) [
      | none ↦ none
      | some found ↦ near_term field term max_distance (split_colon index_term) found
    ]

-- `matchingTerm`
unfoldable pub matching_terms : Str → (Str → Bool) → List Str → List Str
matching_terms field matches = keep (λ term.
    let prefix = field ++ (b':' ∷ []) in
    same (take (length prefix) term) prefix && matches (drop (length prefix) term))

module _ {F : Type 0} (s : Searcher F) where
  -- The result for one posting of a term.
  unfoldable pub term_result : Str → Str → F → Posting → Document F → Result F
  unfolding bm25_score
  term_result term field avg p doc = record {
    id = p.doc_id;
    fields = doc.fields;
    score =
        bm25_score s.ops (s.ops.of_int (pos p.frequency))
          (lookup_or 0 (p.doc_id ++ (b':' ∷ field)) s.doc_lengths) avg s.doc_count
          (pos (length (s.postings_of term))) s.bm25_params (boost_of s field doc);
    highlights = [];
  }

  -- `seen[resolvedID]` keeps the result with the highest score.
  abbrev pub keep_best : Result F → Option (Result F) → Map (Result F) → Map (Result F)
  keep_best r none seen = insert r.id r seen
  keep_best r (some existing) seen =
      if s.less existing.score r.score then insert r.id r seen else seen

  abbrev pub add_stored :
      Str → Str → F → Posting → Option (Document F) → Map (Result F) → Map (Result F)
  add_stored term field avg p none seen = seen
  add_stored term field avg p (some doc) seen =
      keep_best (term_result term field avg p doc) (lookup p.doc_id seen) seen

  unfoldable pub best_of_postings : Str → Str → F → List Posting → Map (Result F) → Map (Result F)
  unfolding term_result
  best_of_postings term field avg [] seen = seen
  best_of_postings term field avg (p ∷ postings) seen =
      best_of_postings term field avg postings
        (add_stored term field avg p (s.stored p.doc_id) seen)

  abbrev pub average_of : Str → F
  average_of field = lookup_or (s.ops.ratio 0 1) field (field_avg_doc_lens s)

  -- The loop over the terms, given the field of a term.
  unfoldable pub best_of_terms : (Str → Str) → List Str → Map (Result F) → Map (Result F)
  unfolding best_of_postings field_avg_doc_lens
  best_of_terms field_of [] seen = seen
  best_of_terms field_of (term ∷ terms) seen =
      best_of_terms field_of terms (
        best_of_postings term (field_of term) (average_of (field_of term)) (s.postings_of term)
          seen)

  module _ (sorting : Sorting) where
    -- The end of `FuzzySearch` and of `WildcardSearch`.
    unfoldable pub ranked : ℕ → Map (Result F) → List (Result F)
    ranked top_k seen = limit_to top_k (sorting.slice (higher_score s) (map (λ kv. kv.1) seen))

    -- `FuzzySearch`, given the terms of the index; `none` is a panic.
    unfoldable pub fuzzy_search : List Str → Str → Str → ℕ → ℕ → Option (List (Result F))
    unfolding near_terms best_of_terms ranked
    fuzzy_search terms field term max_distance top_k =
        Option.map (λ found. ranked top_k (best_of_terms (λ t. field) found []))
          (near_terms field term max_distance terms)

    -- `WildcardSearch`, given the terms of the index and the pattern as a regular expression.
    unfoldable pub wildcard_search : List Str → Str → (Str → Bool) → ℕ → List (Result F)
    unfolding matching_terms best_of_terms ranked before_colon
    wildcard_search terms field matches top_k =
        ranked top_k (best_of_terms before_colon (matching_terms field matches terms) [])

  -- The loop of `PrefixSearch` over the postings of a term, and over the terms that the trie found.
  unfoldable pub prefix_postings : Str → Str → List Posting → StrSet → StrSet × List (Result F)
  unfolding term_result
  prefix_postings term field [] seen = (seen, [])
  prefix_postings term field (p ∷ postings) seen =
      let known = has p.doc_id seen in
      let (seen', results) =
        prefix_postings term field postings (if known then seen else insert p.doc_id tt seen) in
      (
        seen',
        if known then results else elim (s.stored p.doc_id) [
          | none ↦ results
          | some doc ↦ term_result term field (s.ops.ratio 0 1) p doc ∷ results
        ],
      )

  unfoldable pub prefix_results : Str → List Str → StrSet → List (Result F)
  unfolding prefix_postings
  prefix_results field [] seen = []
  prefix_results field (term ∷ terms) seen =
      let (seen', results) = prefix_postings term field (s.postings_of term) seen in
      results ++ prefix_results field terms seen'
