-- ===== src/Tests/Aggregates.antt =====
-- engine/aggregation.go on concrete inputs.
use go_search.Base.{
  ℕ, ◌≡◌, refl, ◌∙◌, Bool, Option, none, some, List, [], ◌∷◌, codes, Str, same, arith, inl, inr,
  Bool-cases,
}
use go_search.Base.Map.{lookup}
use go_search.Engine.Document.{Document}
use go_search.Query.Clause.{Query}
use go_search.Engine.Search.{search}
use go_search.Engine.Aggregation.{Bucket, aggregate}
use go_search.Engine.Aggregation.Counts.{
  total_of, KeepsBuckets, stored_number, hit_number, number_asked, total_of-aggregate,
}
use go_search.Tests.Searches.{two_docs, word_doc}
use go_search.Tests.Sorters.{insertion, sort_items, place}

total_of-place :
    (less : Bucket → Bucket → Bool) (key : Str) (b : Bucket) (bs : List Bucket)
    → total_of key (place less b bs) ≡ total_of key (b ∷ bs)
unfolding place
total_of-place less key b [] = refl
total_of-place less key b (c ∷ bs) = elim (Bool-cases (less c b)) [
  | inr e ↦ rw e
  | inl e ↦
      rw (e, total_of-place less key b bs)
        (elim (Bool-cases (same b.key key)) [
          | inl f ↦ elim (Bool-cases (same c.key key)) [
            | inl g ↦ rw (f, g) (omega arith)
            | inr g ↦ rw (f, g)
          ]
          | inr f ↦ elim (Bool-cases (same c.key key)) [ inl g ↦ rw (f, g) | inr g ↦ rw (f, g) ]
        ])
]

total_of-sort_items :
    (less : Bucket → Bucket → Bool) (key : Str) (bs : List Bucket)
    → total_of key (sort_items less bs) ≡ total_of key bs
unfolding sort_items
total_of-sort_items less key [] = refl
total_of-sort_items less key (b ∷ bs) =
    total_of-place less key b (sort_items less bs) ∙ elim (Bool-cases (same b.key key)) [
      | inl e ↦ rw (e, total_of-sort_items less key bs)
      | inr e ↦ rw (e, total_of-sort_items less key bs)
    ]

insertion-KeepsBuckets : KeepsBuckets insertion
insertion-KeepsBuckets = record { totals = total_of-sort_items }

abbrev three_docs : List (Option (Document ℕ))
three_docs =
    some (word_doc (codes "1") (codes "car"))
    ∷ none
    ∷ some (word_doc (codes "2") (codes "car"))
    ∷ some (word_doc (codes "3") (codes "bus"))
    ∷ []

abbrev all_docs : Query ℕ
all_docs = record { clauses = []; ranges = []; terms = []; regexes = [] }

two_cars : stored_number (codes "t") (codes "car") three_docs ≡ 2
unfolding lookup same
two_cars = refl

total_of-aggregate_example :
    total_of (codes "car") (aggregate two_docs insertion three_docs all_docs (codes "t") 0).buckets
    ≡ number_asked all_docs.clauses
        (stored_number (codes "t") (codes "car") three_docs)
        (hit_number (codes "t") (codes "car") (search two_docs insertion all_docs 0 none).hits)
total_of-aggregate_example =
    total_of-aggregate two_docs insertion three_docs all_docs (codes "t") (codes "car")
      insertion-KeepsBuckets
