-- ===== src/Engine/Aggregation.antt =====
-- engine/aggregation.go: buckets of the values of a field, and numeric statistics.
pub mod Counts
use go_search.Base.{
  ℕ, zero, suc, ◌+◌, ◌^◌, Bool, ◌&&◌, Option, none, some, List, [], ◌∷◌, map, ltb, ◌==◌,
  if◌then◌else◌, length, take, Str,
}
use go_search.Base.Int.{pos}
use go_search.Base.Map.{Map, lookup, lookup_or, insert}
use go_search.Index.KdTree.{Sorting}
use go_search.Query.Clause.{Query}
use go_search.Engine.Document.{Document, Field, Result}
use go_search.Engine.Searcher.{Searcher}
use go_search.Engine.Search.{search, is_empty}

pub record Bucket : Type 0 where
  pub key : Str
  pub count : ℕ

pub record AggResult : Type 0 where
  pub buckets : List Bucket

pub record MetricResult (F : Type 0) : Type 0 where
  pub min_value : F
  pub max_value : F
  pub sum : F
  pub avg : F
  pub count : ℕ

module _ {F : Type 0} where
  -- `bucketCounts[f.Value]++`, where there is such a field.
  abbrev pub count_value : Option (Field F) → Map ℕ → Map ℕ
  count_value none counts = counts
  count_value (some f) counts = insert f.value (lookup_or 0 f.value counts + 1) counts

  unfoldable pub count_values : Str → List (Map (Field F)) → Map ℕ → Map ℕ
  count_values field [] counts = counts
  count_values field (doc ∷ docs) counts =
      count_values field docs (count_value (lookup field doc) counts)

  -- The documents that `Each` passes and that can be read.
  unfoldable pub readable : List (Option (Document F)) → List (Map (Field F))
  readable [] = []
  readable (none ∷ docs) = readable docs
  readable (some doc ∷ docs) = doc.fields ∷ readable docs

abbrev pub more_often : Bucket → Bucket → Bool
more_often a b = ltb b.count a.count

unfoldable pub top_buckets : Sorting → ℕ → Map ℕ → List Bucket
top_buckets sorting top_k counts =
    let buckets =
      sorting.slice more_often (map (λ kv. record { key = kv.0; count = kv.1 }) counts) in
    if ltb 0 top_k && ltb top_k (length buckets) then take top_k buckets else buckets

module _ {F : Type 0} (s : Searcher F) (sorting : Sorting) where
  -- The fields of the documents that `Aggregate` counts; `all` is what the storage has.
  unfoldable pub counted_docs : List (Option (Document F)) → Query F → List (Map (Field F))
  unfolding readable search
  counted_docs all q =
      if is_empty q.clauses
      then readable all
      else map (λ r. r.fields) (search s sorting q 0 none).hits

  unfoldable pub aggregate : List (Option (Document F)) → Query F → Str → ℕ → AggResult
  unfolding counted_docs count_values top_buckets
  aggregate all q field top_k = record {
    buckets = top_buckets sorting top_k (count_values field (counted_docs all q) []);
  }

  -- One number, and the loop of `Metrics`.
  unfoldable pub add_metric : F → MetricResult F → MetricResult F
  add_metric f res = record {
    count = res.count + 1;
    sum = s.ops.plus res.sum f;
    min_value = if s.less f res.min_value then f else res.min_value;
    max_value = if s.less res.max_value f then f else res.max_value;
    avg = res.avg;
  }

  abbrev pub parsed_field : Option (Field F) → Option F
  parsed_field none = none
  parsed_field (some v) = s.parse_float v.value

  unfoldable pub add_metrics : Str → List (Result F) → MetricResult F → MetricResult F
  unfolding add_metric
  add_metrics field [] res = res
  add_metrics field (r ∷ results) res =
      add_metrics field results
        (elim (parsed_field (lookup field r.fields)) [ none ↦ res | some f ↦ add_metric f res ])

  -- `Metrics`; `size` is the number of keys in the storage.
  unfoldable pub metrics : ℕ → Query F → Str → MetricResult F
  unfolding search add_metrics
  metrics size q field =
      let nought = s.ops.ratio 0 1 in
      let huge = s.ops.ratio (10 ^ 308) 1 in
      let res = add_metrics field (search s sorting q size none).hits (record {
        min_value = huge;
        max_value = s.ops.minus nought huge;
        sum = nought;
        avg = nought;
        count = 0;
      }) in
      if res.count == 0
      then record res { min_value = nought; max_value = nought }
      else record res { avg = s.ops.divide res.sum (s.ops.of_int (pos res.count)) }
