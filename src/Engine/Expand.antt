-- ===== src/Engine/Expand.antt =====
-- `expandQueryWithSynonyms` of engine/engine.go, with analysis/synonyms.go.
pub mod Recall
use go_search.Base.{
  ℕ, zero, Bool, Option, none, some, List, [], ◌∷◌, ◌++◌, map, ◌==◌, if◌then◌else◌, length, Str,
}
use go_search.Base.Map.{Map, lookup_or}
use go_search.Query.Clause.{ClauseType, should, must_not, phrase, Clause, Query, clause_of}

-- A nil slice is the empty one.
abbrev pub SynonymMap : Type 0
SynonymMap = Map (List Str)

unfoldable pub get_synonyms : Str → SynonymMap → List Str
get_synonyms term sm = lookup_or [] term sm

-- What one clause becomes, given its type and the synonyms of its term.
unfoldable pub expand_clause : ClauseType → Clause → List Str → List Clause
expand_clause must_not c synonyms = c ∷ []
expand_clause phrase c synonyms = c ∷ []
expand_clause _ c [] = c ∷ []
expand_clause _ c (s ∷ synonyms) =
    clause_of should c.field c.term ∷ map (clause_of should c.field) (s ∷ synonyms)

unfoldable pub expand_clauses : SynonymMap → List Clause → List Clause
unfolding expand_clause get_synonyms
expand_clauses sm [] = []
expand_clauses sm (c ∷ clauses) =
    expand_clause c.type c (get_synonyms c.term sm) ++ expand_clauses sm clauses

unfoldable pub expand_query : {F : Type 0} → SynonymMap → Query F → Query F
unfolding expand_clauses
expand_query sm q =
    if length sm == 0
    then q
    else record { clauses = expand_clauses sm q.clauses; ranges = []; terms = []; regexes = [] }
