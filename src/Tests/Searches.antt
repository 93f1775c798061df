-- ===== src/Tests/Searches.antt =====
-- engine/search.go and engine/engine.go on concrete inputs.
use go_search.Base.{
  ℕ, ◌+◌, ◌≡◌, refl, ◌∙◌, Bool, true, ◌||◌, some, none, List, [], ◌∷◌, codes, same, arith, Str, ltb,
  if◌then◌else◌, Bool-cases, inl, inr,
}
use go_search.Base.Int.{ℤ, pos, negsuc}
use go_search.Base.Map.{Map, lookup}
use go_search.Index.Posting.{Posting}
use go_search.Query.Clause.{Query, clause_of, must}
use go_search.Query.Match.{match}
use go_search.Engine.Document.{Document, Field, Result}
use go_search.Engine.Expand.{expand_query}
use go_search.Engine.Expand.Recall.{match-expand_query}
use go_search.Engine.Searcher.{Searcher}
use go_search.Engine.Search.{search}
use go_search.Engine.Search.Hits.{has_hit, KeepsHits, wanted, has_hit-search}
use go_search.Tests.Sorters.{insertion, sort_items, place}

has_hit-place :
    (less : Result ℕ → Result ℕ → Bool) (id : Str) (r : Result ℕ) (rs : List (Result ℕ))
    → has_hit id (place less r rs) ≡ (same r.id id || has_hit id rs)
unfolding place
has_hit-place less id r [] = refl
has_hit-place less id r (x ∷ rs) = elim (Bool-cases (less x r)) [
  | inl e ↦ rw (e, has_hit-place less id r rs) (ground arith)
  | inr e ↦ rw e
]

has_hit-sort_items :
    (less : Result ℕ → Result ℕ → Bool) (id : Str) (rs : List (Result ℕ))
    → has_hit id (sort_items less rs) ≡ has_hit id rs
unfolding sort_items
has_hit-sort_items less id [] = refl
has_hit-sort_items less id (r ∷ rs) =
    has_hit-place less id r (sort_items less rs) ∙ rw (has_hit-sort_items less id rs)

pub insertion-KeepsHits : KeepsHits insertion ℕ
insertion-KeepsHits = record { slice = has_hit-sort_items; stable = has_hit-sort_items }

-- Two documents, of which the second has both words.
abbrev pub word_field : Str → Field ℕ
word_field value = record { value = value; boost = 1; vector = none }

abbrev pub word_doc : Str → Str → Document ℕ
word_doc id value = record { id = id; fields = (codes "t", word_field value) ∷ [] }

abbrev posting_of : Str → Posting
posting_of id = record { doc_id = id; frequency = 1; positions = 0 ∷ [] }

abbrev magnitude : ℤ → ℕ
magnitude (pos n) = n
magnitude (negsuc n) = n + 1

abbrev pub two_docs : Searcher ℕ
two_docs = record {
  postings_of = λ key.
      if same key (codes "t:car")
      then posting_of (codes "1") ∷ posting_of (codes "2") ∷ []
      else if same key (codes "t:red")
      then posting_of (codes "2") ∷ []
      else [];
  range_query = λ bounds. [];
  sorted_entries = λ field desc. none;
  stored = λ id. some (word_doc id (codes "red car"));
  doc_count = pos 2;
  doc_lengths = (codes "1:t", 1) ∷ (codes "2:t", 2) ∷ [];
  schema = record { fields = [] };
  synonyms = (codes "auto", codes "car" ∷ []) ∷ [];
  bm25_params = record { k1 = 1; b = 1 };
  tokens_of = λ text. [];
  compile = λ regex. none;
  parse_float = λ text. none;
  less = ltb;
  ops = record {
    plus = λ a b. a + b;
    minus = λ a b. a;
    times = λ a b. a;
    divide = λ a b. a;
    log = λ a. a;
    of_int = magnitude;
    ratio = λ n m. n;
  };
}

abbrev pub red_auto : Query ℕ
red_auto = record {
  clauses =
      clause_of must (codes "t") (codes "red") ∷ clause_of must (codes "t") (codes "auto") ∷ [];
  ranges = [];
  terms = [];
  regexes = [];
}

has_hit-search_example :
    has_hit (codes "2") (search two_docs insertion red_auto 0 none).hits
    ≡ wanted two_docs (expand_query two_docs.synonyms red_auto) (codes "2")
has_hit-search_example =
    has_hit-search two_docs insertion red_auto (codes "2") insertion-KeepsHits refl

-- The document has "red" and "car", not "auto".
second_wanted : wanted two_docs (expand_query two_docs.synonyms red_auto) (codes "2") ≡ true
unfolding expand_query lookup same
second_wanted = refl

abbrev red_postings : Map Posting
red_postings =
    (codes "t:red", posting_of (codes "2")) ∷ (codes "t:auto", posting_of (codes "2")) ∷ []

red_matches : match red_auto red_postings ≡ true
unfolding match lookup same
red_matches = refl

match-expand_query_example : match (expand_query two_docs.synonyms red_auto) red_postings ≡ true
match-expand_query_example =
    match-expand_query two_docs.synonyms red_auto red_postings refl red_matches
