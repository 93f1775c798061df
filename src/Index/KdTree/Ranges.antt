-- ===== src/Index/KdTree/Ranges.antt =====
-- index/kdtree.go: range queries, and the test of index/index.go for a query before the first build.
use go_search.Base.{
  Bool, true, false, ◌&&◌, ◌||◌, not, Option, none, some, List, [], ◌∷◌, ◌++◌, if◌then◌else◌, Str,
}
use go_search.Base.Map.{lookup, lookup_or}
use go_search.Base.Float.{Float64}
use go_search.Index.KdTree.{FieldBound, KdEntry, Box, KdNode, KdTree, leaf, split, value_at}

module _ (fl : Float64) where
  unfoldable pub is_built : KdTree fl.F → Bool
  is_built t = elim t.root [ none ↦ false | some n ↦ true ]

  abbrev pub deref : Option fl.F → fl.F → fl.F
  deref none default = default
  deref (some v) default = v

  -- Whether the box of a node misses one of the bounds.
  unfoldable pub misses : Box fl.F → List (FieldBound fl.F) → Bool
  misses box [] = false
  misses box (bound ∷ bounds) =
      (fl.lt (lookup_or fl.zero bound.field box.max_vals) (deref bound.gte fl.neg_inf)
        || fl.lt (deref bound.lte fl.pos_inf) (lookup_or fl.zero bound.field box.min_vals))
      || misses box bounds

  -- Whether a value lies outside a bound.
  abbrev pub outside : FieldBound fl.F → fl.F → Bool
  outside bound val =
      elim bound.gte [ none ↦ false | some b ↦ fl.lt val b ]
      || elim bound.lte [ none ↦ false | some b ↦ fl.lt b val ]
      || elim bound.gt [ none ↦ false | some b ↦ not (fl.lt b val) ]
      || elim bound.lt [ none ↦ false | some b ↦ not (fl.lt val b) ]

  -- The test of a leaf: the value of a missing field is zero.
  unfoldable pub leaf_matches : List (FieldBound fl.F) → KdEntry fl.F → Bool
  leaf_matches [] entry = true
  leaf_matches (bound ∷ bounds) entry =
      not (outside bound (value_at fl bound.field entry)) && leaf_matches bounds entry

  unfoldable pub leaf_ids : List (FieldBound fl.F) → List (KdEntry fl.F) → List Str
  unfolding leaf_matches
  leaf_ids bounds [] = []
  leaf_ids bounds (entry ∷ entries) =
      let rest = leaf_ids bounds entries in
      if not entry.deleted && leaf_matches bounds entry then entry.doc_id ∷ rest else rest

  unfoldable pub multi_range_node : KdNode fl.F → List (FieldBound fl.F) → List Str
  unfolding misses leaf_ids
  multi_range_node (leaf box entries) bounds =
      if misses box bounds then [] else leaf_ids bounds entries
  multi_range_node (split field val box left right) bounds =
      let below = multi_range_node left bounds ++ multi_range_node right bounds in
      if misses box bounds then [] else below

  unfoldable pub multi_range : KdTree fl.F → List (FieldBound fl.F) → List Str
  unfolding multi_range_node
  multi_range t bounds = elim t.root [ none ↦ [] | some n ↦ multi_range_node n bounds ]

-- `kdEntryMatchesBounds` of index/index.go: a missing field matches no bound.
unfoldable pub kd_entry_matches_bounds :
    (fl : Float64) → KdEntry fl.F → List (FieldBound fl.F) → Bool
kd_entry_matches_bounds fl entry [] = true
kd_entry_matches_bounds fl entry (bound ∷ bounds) = elim (lookup bound.field entry.values) [
  | none ↦ false
  | some val ↦ not (outside fl bound val) && kd_entry_matches_bounds fl entry bounds
]
