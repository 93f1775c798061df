-- ===== src/Engine/Search/Stored.antt =====
-- A search of engine/search.go returns stored documents only.
use go_search.Base.{
  ℕ, zero, suc, ◌+◌, ◌-◌, ◌≡◌, refl, sym, ap, ◌∙◌, Bool, false, not, ◌&&◌, ◌||◌, Option, none, some,
  List, [], ◌∷◌, ◌++◌, if◌then◌else◌, ◌==◌, Str, same, same_iff, is_some, keep, arith, inl, inr,
  Bool-cases, Option-cases, length, take, drop, ltb, leb,
}
use go_search.Base.Map.{Map, lookup, has}
use go_search.Index.Posting.{Posting}
use go_search.Index.KdTree.{Sorting}
use go_search.Index.FieldIndex.{FieldEntry}
use go_search.Query.Clause.{Query}
use go_search.Query.Match.{match}
use go_search.Engine.Document.{Document, Result}
use go_search.Engine.Expand.{expand_query}
use go_search.Engine.Paging.{SortClause, SearchOptions, apply_pagination, page, cut_after, limit_to}
use go_search.Engine.Searcher.{Searcher, filtered, score_doc, field_avg_doc_lens}
use go_search.Engine.Search.{
  score_docs, entry_result, add_result, walk_entries, sort_first_search, score_first_search,
  ordered_results, sorted_results, path_results, is_desc, search, candidate_docs, early_limit,
  id_set, higher_score, result_less, same_value_less,
}
use go_search.Engine.Search.Hits.{has_hit, KeepsHits}

module _ {F : Type 0} where
  has_hit-append :
      (id : Str) (xs ys : List (Result F))
      → has_hit id (xs ++ ys) ≡ (has_hit id xs || has_hit id ys)
  has_hit-append id [] ys = refl
  has_hit-append id (x ∷ xs) ys = ground (arith, has_hit-append id xs ys)

  -- Parts of results without a hit have none.
  has_hit-take :
      (id : Str) (n : ℕ) (xs : List (Result F))
      → has_hit id xs ≡ false
      → has_hit id (take n xs) ≡ false
  has_hit-take id zero xs h = refl
  has_hit-take id (suc n) [] h = refl
  has_hit-take id (suc n) (x ∷ xs) h =
      let rest = has_hit-take id n xs (ground (arith, h)) in ground (arith, h, rest)

  has_hit-drop :
      (id : Str) (n : ℕ) (xs : List (Result F))
      → has_hit id xs ≡ false
      → has_hit id (drop n xs) ≡ false
  has_hit-drop id zero xs h = h
  has_hit-drop id (suc n) [] h = refl
  has_hit-drop id (suc n) (x ∷ xs) h = has_hit-drop id n xs (ground (arith, h))

  has_hit-cut_after :
      (id i : Str) (xs : List (Result F))
      → has_hit id xs ≡ false
      → has_hit id (cut_after i xs) ≡ false
  unfolding cut_after
  has_hit-cut_after id i [] h = refl
  has_hit-cut_after id i (x ∷ xs) h =
      let more : has_hit id xs ≡ false = ground (arith, h) in
      elim (Bool-cases (same x.id i)) [
        | inl e ↦ rw e more
        | inr e ↦ rw e (has_hit-cut_after id i xs more)
      ]

  has_hit-limit_to :
      (id : Str) (n : ℕ) (xs : List (Result F))
      → has_hit id xs ≡ false
      → has_hit id (limit_to n xs) ≡ false
  has_hit-limit_to id n xs h = elim (Bool-cases (ltb 0 n && ltb n (length xs))) [
    | inl e ↦ rw e (has_hit-take id n xs h)
    | inr e ↦ rw e h
  ]

  abbrev hit_in : Str → Option (List (Result F)) → Bool
  hit_in id none = false
  hit_in id (some xs) = has_hit id xs

  hit_in-page :
      (id : Str) (opts : Option SearchOptions) (xs : List (Result F))
      → has_hit id xs ≡ false
      → hit_in id (page opts xs) ≡ false
  unfolding page
  hit_in-page id none xs h = h
  hit_in-page id (some opts) xs h = elim (Option-cases opts.search_after) [
    | inr (cursor, e) ↦ rw e (
        has_hit-limit_to id opts.size (cut_after cursor.doc_id xs)
          (has_hit-cut_after id cursor.doc_id xs h))
    | inl e ↦ rw e (elim (Bool-cases (ltb 0 opts.from || ltb 0 opts.size)) [
      | inr f ↦ rw f h
      | inl f ↦ elim (Bool-cases (ltb (length xs) opts.from)) [
        | inl g ↦ rw (f, g)
        | inr g ↦ rw (f, g) (has_hit-drop id opts.from _ (has_hit-take id _ xs h))
      ]
    ])
  ]

  has_hit-apply_pagination :
      (id : Str) (n : ℕ) (opts : Option SearchOptions) (xs : List (Result F))
      → has_hit id xs ≡ false
      → has_hit id (apply_pagination xs n opts).hits ≡ false
  unfolding apply_pagination
  has_hit-apply_pagination id n opts xs h =
      let inside = hit_in-page id opts xs h in
      elim (Option-cases (page opts xs)) [
        | inl e ↦
            let eq : (apply_pagination xs n opts).hits ≡ [] = rw (e, apply_pagination) in
            ap (has_hit id) eq
        | inr (part, e) ↦
            let none_in : has_hit id part ≡ false = sym (ap (hit_in id) e) ∙ inside in
            let eq : (apply_pagination xs n opts).hits ≡ limit_to n part =
              rw (e, apply_pagination) in
            ap (has_hit id) eq ∙ has_hit-limit_to id n part none_in
      ]

  abbrev hit_of : Str → Option (Result F) → Bool
  hit_of id none = false
  hit_of id (some r) = same r.id id

  has_hit-add_result :
      (id : Str) (o : Option (Result F)) (xs : List (Result F))
      → hit_of id o ≡ false
      → has_hit id xs ≡ false
      → has_hit id (add_result o xs) ≡ false
  has_hit-add_result id none xs e h = h
  has_hit-add_result id (some r) xs e h = ground (arith, e, h)

module _ {F : Type 0} (s : Searcher F) where
  hit_of-other :
      (id i : Str) (postings : Map Posting) (q : Query F) (avgs : Map F) (doc : Document F)
      → same i id ≡ false
      → filtered s q i ≡ some doc
      → hit_of id (score_doc s i postings q avgs) ≡ false
  unfolding score_doc
  hit_of-other id i postings q avgs doc e f = rw (f, score_doc, hit_of) e

  -- Results for a document that is not stored.
  hit_of-score_doc :
      (q : Query F) (avgs : Map F) (id i : Str) (postings : Map Posting)
      → s.stored id ≡ none
      → hit_of id (score_doc s i postings q avgs) ≡ false
  unfolding score_doc filtered
  hit_of-score_doc q avgs id i postings h = elim (Bool-cases (same i id)) [
    | inl e ↦
        let gone : s.stored i ≡ none = ap s.stored ((same_iff i id).0 e) ∙ h in
        let eq : score_doc s i postings q avgs ≡ none = rw (gone, score_doc, filtered) in
        ap (hit_of id) eq
    | inr e ↦ elim (Option-cases (filtered s q i)) [
      | inl f ↦
          let eq : score_doc s i postings q avgs ≡ none = rw (f, score_doc) in ap (hit_of id) eq
      | inr (doc, f) ↦ hit_of-other id i postings q avgs doc e f
    ]
  ]

  has_hit-unstored :
      (q : Query F) (avgs : Map F) (id : Str) (docs : Map (Map Posting))
      → s.stored id ≡ none
      → has_hit id (score_docs s q avgs docs) ≡ false
  unfolding score_docs
  has_hit-unstored q avgs id [] h = refl
  has_hit-unstored q avgs id ((i, m) ∷ docs) h =
      let rest = has_hit-unstored q avgs id docs h in
      let one = hit_of-score_doc q avgs id i m h in
      elim (Bool-cases (match q m)) [
        | inr e ↦ rw e rest
        | inl e ↦ elim (Option-cases (score_doc s i m q avgs)) [
          | inl f ↦ rw (e, f) rest
          | inr (r, f) ↦
              let no : same r.id id ≡ false = sym (ap (hit_of id) f) ∙ one in rw (e, f, no) rest
        ]
      ]

  hit_of-entry_result :
      (q : Query F) (avgs : Map F) (id : Str) (docs : Map (Map Posting)) (fe : FieldEntry F)
      → s.stored id ≡ none
      → hit_of id (entry_result s q avgs docs fe) ≡ false
  unfolding entry_result
  hit_of-entry_result q avgs id docs fe h = elim (Option-cases (lookup fe.doc_id docs)) [
    | inl e ↦
        let eq : entry_result s q avgs docs fe ≡ none = rw (e, entry_result) in ap (hit_of id) eq
    | inr (m, e) ↦
        let eq : entry_result s q avgs docs fe ≡ score_doc s fe.doc_id m q avgs =
          rw (e, entry_result) in
        ap (hit_of id) eq ∙ hit_of-score_doc q avgs id fe.doc_id m h
  ]

  has_hit-walk_entries :
      (q : Query F) (avgs : Map F) (id : Str) (docs : Map (Map Posting)) (limit : ℕ)
      (entries : List (FieldEntry F)) (n : ℕ)
      → s.stored id ≡ none
      → has_hit id (walk_entries s q avgs docs limit entries n).0 ≡ false
  unfolding walk_entries
  has_hit-walk_entries q avgs id docs limit [] n h = refl
  has_hit-walk_entries q avgs id docs limit (fe ∷ entries) n h =
      let o = entry_result s q avgs docs fe in
      let one = hit_of-entry_result q avgs id docs fe h in
      let n' = if is_some o then n + 1 else n in
      elim (Bool-cases (is_some o && (ltb 0 limit && leb limit n'))) [
        | inl e ↦ rw e (has_hit-add_result id o [] one refl)
        | inr e ↦ rw e (
            has_hit-add_result id o (walk_entries s q avgs docs limit entries n').0 one
              (has_hit-walk_entries q avgs id docs limit entries n' h))
      ]

  module _ (sorting : Sorting) (k : KeepsHits sorting F) where
    has_hit-sort_first_search :
        (q : Query F) (docs : Map (Map Posting)) (entries : List (FieldEntry F)) (avgs : Map F)
        (top_k : ℕ) (opts : SearchOptions) (field id : Str)
        → s.stored id ≡ none
        → has_hit id (sort_first_search s sorting q docs entries avgs top_k opts field) ≡ false
    unfolding sort_first_search
    has_hit-sort_first_search q docs entries avgs top_k opts field id h =
        let qualified = keep (λ kv. match q kv.1) docs in
        let limit = early_limit top_k opts in
        let walked = walk_entries s q avgs qualified limit entries 0 in
        let result = sorting.stable (same_value_less s field) walked.0 in
        let rest =
          score_docs s q avgs (keep (λ kv. not (has kv.0 (id_set walked.1 []))) qualified) in
        let tail = sorting.slice (higher_score s) rest in
        let in_result : has_hit id result ≡ false =
          k.stable (same_value_less s field) id walked.0
          ∙ has_hit-walk_entries q avgs id qualified limit entries 0 h in
        let in_tail : has_hit id tail ≡ false =
          k.slice (higher_score s) id rest ∙ has_hit-unstored q avgs id _ h in
        elim (Bool-cases (limit == 0 || ltb (length result) limit)) [
          | inr e ↦ rw e in_result
          | inl e ↦ elim (Bool-cases (ltb 0 limit)) [
            | inl f ↦
                rw (e, f)
                  (has_hit-append id result _
                    ∙ rw (in_result, has_hit-take id (limit - length result) tail in_tail))
            | inr f ↦ rw (e, f) (has_hit-append id result tail ∙ rw (in_result, in_tail))
          ]
        ]

    has_hit-score_first_search :
        (q : Query F) (docs : Map (Map Posting)) (avgs : Map F) (clauses : List SortClause)
        (id : Str)
        → s.stored id ≡ none
        → has_hit id (score_first_search s sorting q docs avgs clauses) ≡ false
    unfolding score_first_search
    has_hit-score_first_search q docs avgs [] id h =
        k.slice (higher_score s) id (score_docs s q avgs docs) ∙ has_hit-unstored q avgs id docs h
    has_hit-score_first_search q docs avgs (sc ∷ clauses) id h =
        k.stable (result_less s (sc ∷ clauses)) id (score_docs s q avgs docs)
        ∙ has_hit-unstored q avgs id docs h

    has_hit-path_results :
        (q : Query F) (docs : Map (Map Posting)) (avgs : Map F) (top_k : ℕ) (opts : SearchOptions)
        (sc : SortClause) (clauses : List SortClause) (found : Option (List (FieldEntry F)))
        (id : Str)
        → s.stored id ≡ none
        → has_hit id (path_results s sorting q docs avgs top_k opts sc clauses found) ≡ false
    unfolding path_results
    has_hit-path_results q docs avgs top_k opts sc clauses none id h =
        has_hit-score_first_search q docs avgs (sc ∷ clauses) id h
    has_hit-path_results q docs avgs top_k opts sc clauses (some entries) id h =
        has_hit-sort_first_search q docs entries avgs top_k opts sc.field id h

    has_hit-sorted_results :
        (q : Query F) (docs : Map (Map Posting)) (avgs : Map F) (top_k : ℕ) (opts : SearchOptions)
        (clauses : List SortClause) (id : Str)
        → s.stored id ≡ none
        → has_hit id (sorted_results s sorting q docs avgs top_k opts clauses) ≡ false
    unfolding sorted_results
    has_hit-sorted_results q docs avgs top_k opts [] id h =
        has_hit-score_first_search q docs avgs [] id h
    has_hit-sorted_results q docs avgs top_k opts (sc ∷ clauses) id h =
        has_hit-path_results q docs avgs top_k opts sc clauses
          (s.sorted_entries sc.field (is_desc sc.order)) id h

    has_hit-ordered_results :
        (q : Query F) (docs : Map (Map Posting)) (avgs : Map F) (top_k : ℕ)
        (opts : Option SearchOptions) (id : Str)
        → s.stored id ≡ none
        → has_hit id (ordered_results s sorting q docs avgs top_k opts) ≡ false
    unfolding ordered_results
    has_hit-ordered_results q docs avgs top_k none id h =
        has_hit-score_first_search q docs avgs [] id h
    has_hit-ordered_results q docs avgs top_k (some opts) id h =
        has_hit-sorted_results q docs avgs top_k opts opts.sort id h

pub has_hit-search_unstored :
    {F : Type 0} (s : Searcher F) (sorting : Sorting) (query : Query F) (top_k : ℕ)
    (opts : Option SearchOptions) (id : Str)
    → KeepsHits sorting F
    → s.stored id ≡ none
    → has_hit id (search s sorting query top_k opts).hits ≡ false
unfolding search
has_hit-search_unstored s sorting query top_k opts id k h =
    let q = expand_query s.synonyms query in
    has_hit-apply_pagination id top_k opts
      (ordered_results s sorting q (candidate_docs s q) (field_avg_doc_lens s) top_k opts)
      (has_hit-ordered_results s sorting k q (candidate_docs s q) (field_avg_doc_lens s) top_k opts
        id h)
