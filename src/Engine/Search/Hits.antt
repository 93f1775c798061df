-- ===== src/Engine/Search/Hits.antt =====
-- Which documents `Search` of engine/search.go returns.
use go_search.Base.{
  ◌≡◌, refl, sym, ap, ◌∙◌, Bool, true, false, not, ◌&&◌, ◌||◌, Option, none, some, List, [], ◌∷◌,
  if◌then◌else◌, Str, same, same_iff, is_some, arith, inl, inr, Bool-cases, Option-cases,
}
use mathlib.Core.Path.{subst}
use go_search.Base.Map.{Map, lookup, has, lookup-empty, Unique}
use go_search.Index.Posting.{Posting}
use go_search.Index.KdTree.{Sorting}
use go_search.Query.Clause.{Clause, Query}
use go_search.Query.Match.{any, every, key_of, match, match-eq-satisfies}
use go_search.Engine.Document.{Result}
use go_search.Engine.Expand.{expand_query}
use go_search.Engine.Filters.{is_one_of}
use go_search.Engine.Paging.{apply_pagination, page}
use go_search.Engine.Searcher.{Searcher, filtered, score_doc, field_avg_doc_lens}
use go_search.Engine.Search.{
  add_ids, id_set, keep_docs, add_clauses, candidate_docs, ids_in_ranges, is_empty, score_docs,
  score_first_search, ordered_results, search, higher_score,
}
use go_search.Engine.Search.Candidates.{
  is_phrase, knows, knows_key, reported, knows-add_clauses, add_clauses-Unique, answers,
  satisfies-answers,
}
use go_search.Engine.Search.Allowed.{allowed, filtered-allowed}
use go_search.Engine.Search.Narrowed.{
  has-id_set, lookup-add_ids, add_ids-Unique, lookup-keep_docs, keep_docs-Unique, keep_some,
}
use go_search.Engine.Search.Plain.{expand_query-plain}

-- Whether a result has this ID.
abbrev pub has_hit : {F : Type 0} → Str → List (Result F) → Bool
has_hit id [] = false
has_hit id (r ∷ results) = same r.id id || has_hit id results

-- Sorting keeps the results, as package sort permutes its slice.
pub record KeepsHits (sorting : Sorting) (F : Type 0) : Type 0 where
  pub slice :
      (less : Result F → Result F → Bool) (id : Str) (results : List (Result F))
      → has_hit id (sorting.slice less results) ≡ has_hit id results
  pub stable :
      (less : Result F → Result F → Bool) (id : Str) (results : List (Result F))
      → has_hit id (sorting.stable less results) ≡ has_hit id results

module _ {F : Type 0} (s : Searcher F) where
  -- What one candidate contributes.
  abbrev qualifies : Query F → Str → Option (Map Posting) → Bool
  qualifies q id none = false
  qualifies q id (some postings) = match q postings && is_some (filtered s q id)

  has_hit-score_docs :
      (q : Query F) (avgs : Map F) (id : Str) (docs : Map (Map Posting))
      → Unique docs
      → has_hit id (score_docs s q avgs docs) ≡ qualifies q id (lookup id docs)
  unfolding score_docs score_doc lookup
  has_hit-score_docs q avgs id [] u = refl
  has_hit-score_docs q avgs id ((i, m) ∷ docs) (n, u) =
      let ih = has_hit-score_docs q avgs id docs u in
      elim (Bool-cases (same i id)) [
        | inl e ↦
            let gone : has_hit id (score_docs s q avgs docs) ≡ false =
              ih ∙ ap (qualifies q id) (sym (ap (λ j. lookup j docs) ((same_iff i id).0 e)) ∙ n) in
            let eq : filtered s q i ≡ filtered s q id = ap (filtered s q) ((same_iff i id).0 e) in
            elim (Bool-cases (match q m)) [
              | inl h ↦ elim (Option-cases (filtered s q id)) [
                | inl f ↦ rw (e, h, eq, f) gone
                | inr (doc, f) ↦ rw (e, h, eq, f, e)
              ]
              | inr h ↦ rw (e, h) gone
            ]
        | inr e ↦ elim (Bool-cases (match q m)) [
          | inl h ↦ elim (Option-cases (filtered s q i)) [
            | inl f ↦ rw (e, h, f) ih
            | inr (doc, f) ↦ rw (e, h, f, e) ih
          ]
          | inr h ↦ rw (e, h) ih
        ]
      ]

  -- `candidate_docs` of these clauses, given whether there are ranges and what they find.
  abbrev shape : List Clause → Bool → List Str → Map (Map Posting)
  shape cs no_ranges ids =
      let start = if is_empty cs && not no_ranges then add_ids ids [] else [] in
      let docs = add_clauses s cs start in
      if not no_ranges && (not (is_empty cs) && not (is_empty docs))
      then keep_docs (id_set ids []) docs
      else docs

  -- Whether a clause or, where there are none, the ranges find the document, and the ranges let it
  -- pass.
  abbrev pub proposed : List Clause → Bool → List Str → Str → Bool
  proposed cs no_ranges ids id =
      (any (λ c. reported s id (key_of c)) cs || (is_empty cs && not no_ranges))
      && (no_ranges || is_one_of id ids)

  record Shaped (cs : List Clause) (id : Str) (candidate : Bool) (docs : Map (Map Posting))
      : Type 0 where
    unique : Unique docs
    known : knows id docs ≡ candidate
    keys :
        candidate ≡ true
        → (k : Str) → knows_key id k docs ≡ (any (λ c. same (key_of c) k) cs && reported s id k)

  clause_docs :
      (cs : List Clause) (id : Str)
      → every (λ c. not (is_phrase c.type)) cs ≡ true
      → Shaped cs id (any (λ c. reported s id (key_of c)) cs) (add_clauses s cs [])
  clause_docs cs id h = record {
    unique = add_clauses-Unique s cs [] h tt;
    known = (knows-add_clauses s id id cs [] h).0 ∙ rw (lookup-empty id) (ground arith);
    keys = λ e k.
        (knows-add_clauses s id k cs [] h).1 ∙ rw (lookup-empty id, lookup-empty k) (ground arith);
  }

  narrow :
      (cs : List Clause) (id : Str) (b : Bool) (ids : List Str) (docs : Map (Map Posting))
      → Shaped cs id b docs
      → Shaped cs id (b && is_one_of id ids) (keep_docs (id_set ids []) docs)
  narrow cs id b ids docs h =
      let set = id_set ids [] in
      let in_set : has id set ≡ is_one_of id ids =
        has-id_set id ids [] ∙ rw (lookup-empty id) (ground arith) in
      record {
        unique = keep_docs-Unique set docs h.unique;
        known =
            rw (lookup-keep_docs id set docs, in_set)
              (elim (Bool-cases (is_one_of id ids)) [
                | inl e ↦ rw e (h.known ∙ ground arith)
                | inr e ↦ rw e (ground arith)
              ]);
        keys = λ e k.
            let inside : is_one_of id ids ≡ true = ground (arith, e) in
            rw (lookup-keep_docs id set docs, in_set, inside) (h.keys (ground (arith, e)) k);
      }

  only_ids : (id : Str) (ids : List Str) → Shaped [] id (is_one_of id ids) (add_ids ids [])
  only_ids id ids = record {
    unique = add_ids-Unique ids [] tt;
    known = rw (lookup-add_ids id ids [], lookup-empty id) (ground arith);
    keys = λ e k. rw (lookup-add_ids id ids [], e, lookup-empty {V = Posting} k);
  }

  shape-Shaped :
      (cs : List Clause) (no_ranges : Bool) (ids : List Str) (id : Str)
      → every (λ c. not (is_phrase c.type)) cs ≡ true
      → Shaped cs id (proposed cs no_ranges ids id) (shape cs no_ranges ids)
  unfolding add_clauses
  shape-Shaped [] true ids id h = record {
    unique = tt;
    known = rw (lookup-empty id) refl;
    keys = λ e k. absurd (cc);
  }
  shape-Shaped [] false ids id h = only_ids id ids
  shape-Shaped (c ∷ cs) true ids id h =
      subst (λ b. Shaped (c ∷ cs) id b (add_clauses s (c ∷ cs) [])) (ground arith)
        (clause_docs (c ∷ cs) id h)
  shape-Shaped (c ∷ cs) false ids id h =
      let docs = add_clauses s (c ∷ cs) [] in
      subst (Shaped (c ∷ cs) id (proposed (c ∷ cs) false ids id))
        (sym (keep_some (id_set ids []) docs))
        (subst (λ b. Shaped (c ∷ cs) id b (keep_docs (id_set ids []) docs)) (ground arith)
          (narrow (c ∷ cs) id (any (λ d. reported s id (key_of d)) (c ∷ cs)) ids docs
            (clause_docs (c ∷ cs) id h)))

  qualifies-Shaped :
      (q : Query F) (id : Str) (b : Bool) (docs : Map (Map Posting))
      → every (λ c. not (is_phrase c.type)) q.clauses ≡ true
      → Shaped q.clauses id b docs
      → qualifies q id (lookup id docs)
        ≡ (b && (answers (reported s id) q.clauses && is_some (filtered s q id)))
  qualifies-Shaped q id b docs h shaped = elim (Option-cases (lookup id docs)) [
    | inl e ↦ let no : b ≡ false = sym shaped.known ∙ rw e in rw (e, no)
    | inr (postings, e) ↦
        let yes : b ≡ true = sym shaped.known ∙ rw e in
        let keys : (k : Str)
            → has k postings ≡ (any (λ c. same (key_of c) k) q.clauses && reported s id k) =
          λ k. sym (rw e refl) ∙ shaped.keys yes k in
        rw (
          e,
          yes,
          match-eq-satisfies q postings,
          satisfies-answers (reported s id) postings q.clauses h keys,
        )
  ]

  -- What a query asks of a document: to be proposed, to answer the clauses, and to be stored and
  -- pass the filters.
  abbrev pub wanted : Query F → Str → Bool
  wanted q id =
      proposed q.clauses (is_empty q.ranges) (ids_in_ranges s q) id
      && (answers (reported s id) q.clauses && allowed s q id)

  has_hit-candidate_docs :
      (q : Query F) (avgs : Map F) (id : Str)
      → every (λ c. not (is_phrase c.type)) q.clauses ≡ true
      → has_hit id (score_docs s q avgs (candidate_docs s q)) ≡ wanted q id
  unfolding candidate_docs
  has_hit-candidate_docs q avgs id h =
      let shaped = shape-Shaped q.clauses (is_empty q.ranges) (ids_in_ranges s q) id h in
      has_hit-score_docs q avgs id (candidate_docs s q) shaped.unique
      ∙ qualifies-Shaped q id _ (candidate_docs s q) h shaped
      ∙ rw (filtered-allowed s q id)

-- `Search` with no limit and no options, of a query without phrases, returns a document exactly
-- when, for the query with its synonyms expanded, a clause or, where there are none, the ranges
-- find it, the ranges let it pass, what the index reports of it for each clause meets the must,
-- must-not and should clauses, and it is stored and passes the filters on terms and regular
-- expressions; the sorting keeps the results that it is given.
pub has_hit-search :
    {F : Type 0} (s : Searcher F) (sorting : Sorting) (query : Query F) (id : Str)
    → KeepsHits sorting F
    → every (λ c. not (is_phrase c.type)) query.clauses ≡ true
    → has_hit id (search s sorting query 0 none).hits ≡ wanted s (expand_query s.synonyms query) id
unfolding search ordered_results score_first_search apply_pagination page
has_hit-search s sorting query id k h =
    let q = expand_query s.synonyms query in
    k.slice (higher_score s) id (score_docs s q (field_avg_doc_lens s) (candidate_docs s q))
    ∙ has_hit-candidate_docs s q (field_avg_doc_lens s) id (expand_query-plain s.synonyms query h)
