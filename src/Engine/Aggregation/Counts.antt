-- ===== src/Engine/Aggregation/Counts.antt =====
-- What the buckets of engine/aggregation.go count.
use go_search.Base.{
  ℕ, suc, ◌+◌, ◌≡◌, refl, sym, ap, ◌∙◌, Bool, false, Option, none, some, List, [], ◌∷◌, map,
  if◌then◌else◌, Str, same, same_iff, arith, inl, inr, Bool-cases, Option-cases,
}
use mathlib.Core.Path.{subst}
use go_search.Base.Map.{Map, lookup, lookup_or, lookup-insert, lookup-empty, Unique, insert-Unique}
use go_search.Index.KdTree.{Sorting}
use go_search.Query.Clause.{Query, Clause}
use go_search.Engine.Document.{Document, Field, Result}
use go_search.Engine.Searcher.{Searcher}
use go_search.Engine.Search.{search, is_empty}
use go_search.Engine.Aggregation.{
  readable, Bucket, count_value, count_values, top_buckets, counted_docs, aggregate, more_often,
}

-- Whether the field of a document has the value.
abbrev pub has_value : {F : Type 0} → Str → Option (Field F) → Bool
has_value value none = false
has_value value (some f) = same f.value value

-- How many of the documents have it.
abbrev pub number_with : {F : Type 0} → Str → Str → List (Map (Field F)) → ℕ
number_with field value [] = 0
number_with field value (doc ∷ docs) =
    if has_value value (lookup field doc)
    then suc (number_with field value docs)
    else number_with field value docs

-- What the buckets with a key add up to.
abbrev pub total_of : Str → List Bucket → ℕ
total_of key [] = 0
total_of key (b ∷ buckets) =
    if same b.key key then b.count + total_of key buckets else total_of key buckets

-- Sorting permutes the buckets, as package sort does.
pub record KeepsBuckets (sorting : Sorting) : Type 0 where
  pub totals :
      (less : Bucket → Bucket → Bool) (key : Str) (buckets : List Bucket)
      → total_of key (sorting.slice less buckets) ≡ total_of key buckets

module _ {F : Type 0} where
  count_value-lookup :
      (value : Str) (f : Option (Field F)) (counts : Map ℕ)
      → lookup_or 0 value (count_value f counts)
        ≡ (if has_value value f then suc (lookup_or 0 value counts) else lookup_or 0 value counts)
  count_value-lookup value none counts = refl
  count_value-lookup value (some f) counts = elim (Bool-cases (same f.value value)) [
    | inl e ↦
        let eq : lookup f.value counts ≡ lookup value counts =
          ap (λ k. lookup k counts) ((same_iff f.value value).0 e) in
        rw (lookup-insert f.value value (lookup_or 0 f.value counts + 1) counts, e, eq)
          (omega arith)
    | inr e ↦ rw (lookup-insert f.value value (lookup_or 0 f.value counts + 1) counts, e)
  ]

  count_values-lookup :
      (field value : Str) (docs : List (Map (Field F))) (counts : Map ℕ)
      → lookup_or 0 value (count_values field docs counts)
        ≡ number_with field value docs + lookup_or 0 value counts
  unfolding count_values
  count_values-lookup field value [] counts = omega arith
  count_values-lookup field value (doc ∷ docs) counts =
      count_values-lookup field value docs (count_value (lookup field doc) counts)
      ∙ rw (count_value-lookup value (lookup field doc) counts)
          (elim (Bool-cases (has_value value (lookup field doc))) [
            | inl e ↦ rw e (omega arith)
            | inr e ↦ rw e
          ])

  count_values-Unique :
      (field : Str) (docs : List (Map (Field F))) (counts : Map ℕ)
      → Unique counts
      → Unique (count_values field docs counts)
  unfolding count_values
  count_values-Unique field [] counts u = u
  count_values-Unique field (doc ∷ docs) counts u =
      count_values-Unique field docs (count_value (lookup field doc) counts)
        (elim (Option-cases (lookup field doc)) [
          | inl e ↦ subst (λ f. Unique (count_value f counts)) (sym e) u
          | inr (f, e) ↦
              subst (λ g. Unique (count_value g counts)) (sym e)
                (insert-Unique f.value (lookup_or 0 f.value counts + 1) counts u)
        ])

total_of-counts :
    (key : Str) (counts : Map ℕ)
    → Unique counts
    → total_of key (map (λ kv. record { key = kv.0; count = kv.1 }) counts) ≡ lookup_or 0 key counts
unfolding lookup
total_of-counts key [] u = refl
total_of-counts key ((k, n) ∷ counts) (fresh, u) = elim (Bool-cases (same k key)) [
  | inl e ↦
      let gone : lookup key counts ≡ none =
        ap (λ i. lookup i counts) (sym ((same_iff k key).0 e)) ∙ fresh in
      rw (e, total_of-counts key counts u, gone) (omega arith)
  | inr e ↦ rw e (total_of-counts key counts u)
]

-- How many of the stored documents that can be read, or of the results of a search, have the value.
abbrev pub stored_number : {F : Type 0} → Str → Str → List (Option (Document F)) → ℕ
stored_number field value [] = 0
stored_number field value (none ∷ docs) = stored_number field value docs
stored_number field value (some doc ∷ docs) =
    if has_value value (lookup field doc.fields)
    then suc (stored_number field value docs)
    else stored_number field value docs

abbrev pub hit_number : {F : Type 0} → Str → Str → List (Result F) → ℕ
hit_number field value [] = 0
hit_number field value (r ∷ results) =
    if has_value value (lookup field r.fields)
    then suc (hit_number field value results)
    else hit_number field value results

-- A query without clauses asks for all stored documents, another one for its hits.
abbrev pub number_asked : List Clause → ℕ → ℕ → ℕ
number_asked [] stored hits = stored
number_asked (c ∷ clauses) stored hits = hits

number_with-readable :
    {F : Type 0} (field value : Str) (all : List (Option (Document F)))
    → number_with field value (readable all) ≡ stored_number field value all
unfolding readable
number_with-readable field value [] = refl
number_with-readable field value (none ∷ docs) = number_with-readable field value docs
number_with-readable field value (some doc ∷ docs) = rw (number_with-readable field value docs)

number_with-hits :
    {F : Type 0} (field value : Str) (results : List (Result F))
    → number_with field value (map (λ r. r.fields) results) ≡ hit_number field value results
number_with-hits field value [] = refl
number_with-hits field value (r ∷ results) = rw (number_with-hits field value results)

number_with-asked :
    {F : Type 0} (field value : Str) (clauses : List Clause) (a b : List (Map (Field F)))
    → number_with field value (if is_empty clauses then a else b)
      ≡ number_asked clauses (number_with field value a) (number_with field value b)
number_with-asked field value [] a b = refl
number_with-asked field value (c ∷ clauses) a b = refl

-- `Aggregate` without a limit has for each value of the field buckets whose counts add up, for a
-- query without clauses, to the number of stored documents that can be read and have this value,
-- and for any other query to the number of results with this value that `Search` returns for the
-- query without a limit; the sorting keeps the buckets that it is given.
pub total_of-aggregate :
    {F : Type 0} (s : Searcher F) (sorting : Sorting) (all : List (Option (Document F)))
    (q : Query F) (field key : Str)
    → KeepsBuckets sorting
    → total_of key (aggregate s sorting all q field 0).buckets
      ≡ number_asked q.clauses
          (stored_number field key all)
          (hit_number field key (search s sorting q 0 none).hits)
unfolding aggregate top_buckets counted_docs
total_of-aggregate s sorting all q field key k =
    let docs = counted_docs s sorting all q in
    let hits = (search s sorting q 0 none).hits in
    k.totals more_often key _
    ∙ total_of-counts key (count_values field docs []) (count_values-Unique field docs [] tt)
    ∙ count_values-lookup field key docs []
    ∙ rw (lookup-empty key) (omega arith)
    ∙ number_with-asked field key q.clauses (readable all) (map (λ r. r.fields) hits)
    ∙ rw (number_with-readable field key all, number_with-hits field key hits)
