-- ===== src/Engine/Search.antt =====
-- `Search` of engine/search.go: the candidates of the query's clauses, the filter by ranges, scores,
-- and the order. Go ranges over the candidates in any order; here it is that of their first find.
pub mod Candidates
pub mod Narrowed
pub mod Plain
pub mod Allowed
pub mod Hits
pub mod Stored
use go_search.Base.{
  ℕ, zero, suc, ◌+◌, ◌-◌, Bool, true, false, not, ◌&&◌, ◌||◌, Option, none, some, List, [], ◌∷◌,
  ◌++◌, ltb, leb, ◌==◌, if◌then◌else◌, length, take, Str, same, keep, is_some,
}
use go_search.Base.Fields.{fields}
use go_search.Base.Map.{Map, lookup, lookup_or, insert, has, StrSet}
use go_search.Index.Posting.{Posting}
use go_search.Index.KdTree.{Sorting}
use go_search.Index.FieldIndex.{FieldEntry, str_less}
use go_search.Query.Clause.{ClauseType, phrase, Clause, Query}
use go_search.Query.Match.{index_key, key_of, match}
use go_search.Engine.Document.{Result, field_value}
use go_search.Engine.Paging.{
  SortOrder, asc, desc, SortClause, SearchOptions, SearchResult, apply_pagination,
}
use go_search.Engine.Expand.{expand_query}
use go_search.Engine.Filters.{ranges_to_field_bounds}
use go_search.Engine.Searcher.{Searcher, score_doc, field_avg_doc_lens}

-- The postings of each candidate by key: `candidateDocs`.
unfoldable pub add_postings : Str → List Posting → Map (Map Posting) → Map (Map Posting)
add_postings key [] docs = docs
add_postings key (p ∷ postings) docs =
    add_postings key postings (insert p.doc_id (insert key p (lookup_or [] p.doc_id docs)) docs)

-- The documents that a range query finds, without postings.
unfoldable pub add_ids : List Str → Map (Map Posting) → Map (Map Posting)
add_ids [] docs = docs
add_ids (id ∷ ids) docs = add_ids ids (insert id [] docs)

unfoldable pub id_set : List Str → StrSet → StrSet
id_set [] set = set
id_set (id ∷ ids) set = id_set ids (insert id tt set)

abbrev pub keep_docs : StrSet → Map (Map Posting) → Map (Map Posting)
keep_docs set = keep (λ kv. has kv.0 set)

abbrev pub is_empty {ℓ} : {A : Type ℓ} → List A → Bool
is_empty [] = true
is_empty (x ∷ xs) = false

abbrev pub add_result : {A : Type 0} → Option A → List A → List A
add_result none results = results
add_result (some r) results = r ∷ results

-- The limit of `sortFirstSearch`; 0 is none.
unfoldable pub early_limit : ℕ → SearchOptions → ℕ
early_limit top_k opts = elim opts.search_after [
  | some cursor ↦ 0
  | none ↦
      let need = opts.from + opts.size in
      if ltb 0 opts.size && (top_k == 0 || ltb need top_k) then need else top_k
]

abbrev pub is_desc : SortOrder → Bool
is_desc asc = false
is_desc desc = true

module _ {F : Type 0} (s : Searcher F) where
  unfoldable pub add_words : Str → List Str → Map (Map Posting) → Map (Map Posting)
  unfolding add_postings
  add_words field [] docs = docs
  add_words field (term ∷ terms) docs =
      add_words field terms (add_postings term (s.postings_of (index_key field term)) docs)

  unfoldable pub add_clause : ClauseType → Clause → Map (Map Posting) → Map (Map Posting)
  unfolding add_words add_postings
  add_clause phrase c docs = add_words c.field (fields c.term) docs
  add_clause _ c docs = add_postings (key_of c) (s.postings_of (key_of c)) docs

  unfoldable pub add_clauses : List Clause → Map (Map Posting) → Map (Map Posting)
  unfolding add_clause
  add_clauses [] docs = docs
  add_clauses (c ∷ clauses) docs = add_clauses clauses (add_clause c.type c docs)

  abbrev pub ids_in_ranges : Query F → List Str
  ids_in_ranges q = s.range_query (ranges_to_field_bounds q.ranges)

  unfoldable pub candidate_docs : Query F → Map (Map Posting)
  unfolding add_clauses add_ids id_set
  candidate_docs q =
      let start =
        if is_empty q.clauses && not (is_empty q.ranges)
        then add_ids (ids_in_ranges q) []
        else [] in
      let docs = add_clauses q.clauses start in
      if not (is_empty q.ranges) && (not (is_empty q.clauses) && not (is_empty docs))
      then keep_docs (id_set (ids_in_ranges q) []) docs
      else docs

  -- The loop over the candidates of the score-first path. Each ID stands once.
  unfoldable pub score_docs : Query F → Map F → Map (Map Posting) → List (Result F)
  unfolding score_doc
  score_docs q avgs [] = []
  score_docs q avgs ((doc_id, postings) ∷ docs) =
      let rest = score_docs q avgs docs in
      if match q postings
      then elim (score_doc s doc_id postings q avgs) [ none ↦ rest | some r ↦ r ∷ rest ]
      else rest

  -- `compareFieldValues(a, b) < 0`
  unfoldable pub value_less : Str → Str → Bool
  value_less a b = elim (s.parse_float a) [
    | none ↦ str_less a b
    | some af ↦ elim (s.parse_float b) [ none ↦ str_less a b | some bf ↦ s.less af bf ]
  ]

  -- The comparison of `Sort`.
  unfoldable pub result_less : List SortClause → Result F → Result F → Bool
  unfolding value_less
  result_less [] a b = s.less b.score a.score
  result_less (sc ∷ clauses) a b =
      let va = field_value sc.field a.fields in
      let vb = field_value sc.field b.fields in
      let rest = result_less clauses a b in
      if value_less va vb
      then elim sc.order [ asc ↦ true | desc ↦ false ]
      else if value_less vb va
      then elim sc.order [ asc ↦ false | desc ↦ true ]
      else rest

  abbrev pub higher_score : Result F → Result F → Bool
  higher_score a b = s.less b.score a.score

  -- The order of results that have the same value in the sort field.
  abbrev pub same_value_less : Str → Result F → Result F → Bool
  same_value_less field a b =
      same (field_value field a.fields) (field_value field b.fields) && higher_score a b

  -- The result of one entry, if its document qualifies.
  unfoldable pub entry_result :
      Query F → Map F → Map (Map Posting) → FieldEntry F → Option (Result F)
  unfolding score_doc
  entry_result q avgs docs fe = elim (lookup fe.doc_id docs) [
    | none ↦ none
    | some postings ↦ score_doc s fe.doc_id postings q avgs
  ]

  -- The loop over the sorted entries, with `n` results so far: the further results, and the IDs of
  -- the entries that it saw.
  unfoldable pub walk_entries :
      Query F → Map F → Map (Map Posting) → ℕ → List (FieldEntry F) → ℕ → List (Result F) × List Str
  unfolding entry_result
  walk_entries q avgs docs limit [] n = ([], [])
  walk_entries q avgs docs limit (fe ∷ entries) n =
      let outcome = entry_result q avgs docs fe in
      let n' = if is_some outcome then n + 1 else n in
      let (results, ids) = walk_entries q avgs docs limit entries n' in
      if is_some outcome && (ltb 0 limit && leb limit n')
      then (add_result outcome [], fe.doc_id ∷ [])
      else (add_result outcome results, fe.doc_id ∷ ids)

  module _ (sorting : Sorting) where
    unfoldable pub sort_first_search :
        Query F
        → Map (Map Posting)
        → List (FieldEntry F)
        → Map F
        → ℕ
        → SearchOptions
        → Str
        → List (Result F)
    unfolding walk_entries id_set score_docs early_limit
    sort_first_search q docs entries avgs top_k opts field =
        let qualified = keep (λ kv. match q kv.1) docs in
        let limit = early_limit top_k opts in
        let (found, ids) = walk_entries q avgs qualified limit entries 0 in
        let result = sorting.stable (same_value_less field) found in
        let seen = id_set ids [] in
        let tail =
          sorting.slice higher_score
            (score_docs q avgs (keep (λ kv. not (has kv.0 seen)) qualified)) in
        if limit == 0 || ltb (length result) limit
        then result ++ (if ltb 0 limit then take (limit - length result) tail else tail)
        else result

    -- The score-first path.
    unfoldable pub score_first_search :
        Query F → Map (Map Posting) → Map F → List SortClause → List (Result F)
    unfolding score_docs result_less
    score_first_search q docs avgs [] = sorting.slice higher_score (score_docs q avgs docs)
    score_first_search q docs avgs (sc ∷ clauses) =
        sorting.stable (result_less (sc ∷ clauses)) (score_docs q avgs docs)

    -- The two paths of `Search`, given what the field index has for the first sort clause.
    unfoldable pub path_results :
        Query F
        → Map (Map Posting)
        → Map F
        → ℕ
        → SearchOptions
        → SortClause
        → List SortClause
        → Option (List (FieldEntry F))
        → List (Result F)
    unfolding sort_first_search score_first_search
    path_results q docs avgs top_k opts sc clauses none =
        score_first_search q docs avgs (sc ∷ clauses)
    path_results q docs avgs top_k opts sc clauses (some entries) =
        sort_first_search q docs entries avgs top_k opts sc.field

    unfoldable pub sorted_results :
        Query F → Map (Map Posting) → Map F → ℕ → SearchOptions → List SortClause → List (Result F)
    unfolding path_results score_first_search
    sorted_results q docs avgs top_k opts [] = score_first_search q docs avgs []
    sorted_results q docs avgs top_k opts (sc ∷ clauses) =
        path_results q docs avgs top_k opts sc clauses
          (s.sorted_entries sc.field (is_desc sc.order))

    unfoldable pub ordered_results :
        Query F → Map (Map Posting) → Map F → ℕ → Option SearchOptions → List (Result F)
    unfolding sorted_results score_first_search
    ordered_results q docs avgs top_k none = score_first_search q docs avgs []
    ordered_results q docs avgs top_k (some opts) = sorted_results q docs avgs top_k opts opts.sort

    unfoldable pub search : Query F → ℕ → Option SearchOptions → SearchResult F
    unfolding expand_query candidate_docs field_avg_doc_lens ordered_results apply_pagination
    search query top_k opts =
        let q = expand_query s.synonyms query in
        apply_pagination (ordered_results q (candidate_docs q) (field_avg_doc_lens s) top_k opts)
          top_k opts
