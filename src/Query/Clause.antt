-- ===== src/Query/Clause.antt =====
-- query/query.go: clauses, queries and the builder. A float64 bound is an argument type `F`.
use go_search.Base.{ℕ, Option, none, List, [], ◌∷◌, ◌++◌, Str}
use go_search.Base.Fields.{join_space}

pub data ClauseType : Type 0 where
  must should must_not phrase range fuzzy regex : ClauseType

pub record Clause : Type 0 where
  pub field : Str
  pub term : Str
  pub type : ClauseType
  pub max_distance : ℕ

-- `none` is a nil bound.
pub record RangeClause (F : Type 0) : Type 0 where
  pub field : Str
  pub gte : Option F
  pub lte : Option F
  pub gt : Option F
  pub lt : Option F

pub record TermsClause : Type 0 where
  pub field : Str
  pub values : List Str

pub record RegexClause : Type 0 where
  pub field : Str
  pub regex : Str

-- The builder has the same four fields.
pub record Query (F : Type 0) : Type 0 where
  pub clauses : List Clause
  pub ranges : List (RangeClause F)
  pub terms : List TermsClause
  pub regexes : List RegexClause

abbrev pub Builder : Type 0 → Type 0
Builder F = Query F

abbrev pub clause_of : ClauseType → Str → Str → Clause
clause_of t field term = record { field = field; term = term; type = t; max_distance = 0 }

-- Each method appends one clause to one of the lists.
module _ {F : Type 0} where
  unfoldable pub add_must : Str → Str → Builder F → Builder F
  add_must field term b = record b { clauses = b.clauses ++ (clause_of must field term ∷ []) }

  unfoldable pub add_should : Str → Str → Builder F → Builder F
  add_should field term b = record b { clauses = b.clauses ++ (clause_of should field term ∷ []) }

  unfoldable pub add_must_not : Str → Str → Builder F → Builder F
  add_must_not field term b = record b {
    clauses = b.clauses ++ (clause_of must_not field term ∷ []);
  }

  unfoldable pub add_phrase : Str → List Str → Builder F → Builder F
  add_phrase field terms b = record b {
    clauses = b.clauses ++ (clause_of phrase field (join_space terms) ∷ []);
  }

  unfoldable pub add_range : Str → Option F → Option F → Builder F → Builder F
  add_range field gte lte b = record b {
    ranges =
        b.ranges ++ (record { field = field; gte = gte; lte = lte; gt = none; lt = none } ∷ []);
  }

  unfoldable pub add_terms : Str → List Str → Builder F → Builder F
  add_terms field values b = record b {
    terms = b.terms ++ (record { field = field; values = values } ∷ []);
  }

  unfoldable pub add_regex : Str → Str → Builder F → Builder F
  add_regex field pattern_text b = record b {
    regexes = b.regexes ++ (record { field = field; regex = pattern_text } ∷ []);
  }

abbrev pub new_builder : (F : Type 0) → Builder F
new_builder F = record { clauses = []; ranges = []; terms = []; regexes = [] }

unfoldable pub build : {F : Type 0} → Builder F → Query F
build b = record { clauses = b.clauses; ranges = b.ranges; terms = b.terms; regexes = b.regexes }
