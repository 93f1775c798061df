-- ===== src/Engine/Search/Plain.antt =====
-- The expansion by synonyms makes no phrase clauses.
use go_search.Base.{
  ◌≡◌, refl, ◌∙◌, true, not, List, [], ◌∷◌, ◌==◌, Str, arith, inl, inr, Bool-cases, length, map,
}
use go_search.Query.Clause.{ClauseType, phrase, must_not, Clause, Query, clause_of, should}
use go_search.Query.Match.{every}
use go_search.Engine.Expand.{SynonymMap, expand_clause, expand_clauses, expand_query, get_synonyms}
use go_search.Engine.Expand.Recall.{every-append}
use go_search.Engine.Search.Candidates.{is_phrase}

should_plain :
    (field : Str) (terms : List Str)
    → every (λ d. not (is_phrase d.type)) (map (clause_of should field) terms) ≡ true
should_plain field [] = refl
should_plain field (t ∷ terms) = should_plain field terms

expand_clause-plain :
    (t : ClauseType) (c : Clause) (terms : List Str)
    → c.type ≡ t
    → not (is_phrase t) ≡ true
    → every (λ d. not (is_phrase d.type)) (expand_clause t c terms) ≡ true
unfolding expand_clause
expand_clause-plain phrase c terms e h = absurd (cc)
expand_clause-plain must_not c terms e h = ground (arith, e)
expand_clause-plain _ c [] e h = ground (arith, e, h)
expand_clause-plain _ c (s ∷ terms) e h = should_plain c.field terms

expand_clauses-plain :
    (sm : SynonymMap) (cs : List Clause)
    → every (λ c. not (is_phrase c.type)) cs ≡ true
    → every (λ c. not (is_phrase c.type)) (expand_clauses sm cs) ≡ true
unfolding expand_clauses
expand_clauses-plain sm [] h = refl
expand_clauses-plain sm (c ∷ cs) h =
    let one : not (is_phrase c.type) ≡ true = ground (arith, h) in
    let more : every (λ d. not (is_phrase d.type)) cs ≡ true = ground (arith, h) in
    let terms = get_synonyms c.term sm in
    every-append (λ d. not (is_phrase d.type)) (expand_clause c.type c terms) (expand_clauses sm cs)
    ∙ rw (expand_clause-plain c.type c terms refl one, expand_clauses-plain sm cs more)

pub expand_query-plain :
    {F : Type 0} (sm : SynonymMap) (q : Query F)
    → every (λ c. not (is_phrase c.type)) q.clauses ≡ true
    → every (λ c. not (is_phrase c.type)) (expand_query sm q).clauses ≡ true
unfolding expand_query
expand_query-plain sm q h = elim (Bool-cases (length sm == 0)) [
  | inl e ↦ rw e h
  | inr e ↦ rw e (expand_clauses-plain sm q.clauses h)
]
