-- ===== src/Tests/FieldIndexes.antt =====
-- index/field_index.go and index/kdtree.go on concrete inputs.
use go_search.Base.{
  false, refl, same, Str, ℕ, ◌≡◌, ◌||◌, true, some, none, List, [], ◌∷◌, codes, ltb, keep, map, not,
  is_some, if◌then◌else◌,
}
use go_search.Base.Map.{lookup, lookup_or, has}
use go_search.Base.Float.{Float64}
use go_search.Index.KdTree.{FieldBound, KdEntry, KdTree, leaf, split, delete_doc}
use go_search.Index.KdTree.Ranges.{multi_range}
use go_search.Index.KdTree.Deletion.{OnceIn, without, multi_range-delete_doc}
use go_search.Index.FieldIndex.{FieldIndex, is_live, sort_values, compact_fields, range_ids}
use go_search.Index.FieldIndex.Ranges.{range_ids-eq}
use go_search.Index.FieldIndex.Values.{behind, sort_values-compact, sort_values-after}
use mathlib.Core.List.{reverse}

abbrev naturals : Float64
naturals = record { F = ℕ; lt = ltb; zero = 0; pos_inf = 1000; neg_inf = 0 }

-- Prices 5, 7 and 9, the second deleted.
abbrev prices : FieldIndex ℕ
prices = record {
  entries =
      (
        codes "price",
        record { value = codes "5"; num_val = 5; doc_id = codes "a" }
            ∷ record { value = codes "7"; num_val = 7; doc_id = codes "b" }
            ∷ record { value = codes "9"; num_val = 9; doc_id = codes "c" }
            ∷ [],
      )
      ∷ [];
  deleted = (codes "b", tt) ∷ [];
}

range_ids-eq_example :
    range_ids naturals (codes "price") (some 4) (some 8) none none prices
    ≡ some (
        if (is_some {A = ℕ} (some 4) || is_some {A = ℕ} none)
          || (is_some {A = ℕ} (some 8) || is_some {A = ℕ} none)
        then []
        else map
            (λ e. e.doc_id)
            (keep (is_live prices.deleted) (lookup_or [] (codes "price") prices.entries)))
range_ids-eq_example = range_ids-eq naturals (codes "price") (some 4) (some 8) none none prices

sort_values-compact_example :
    sort_values (codes "price") true none (compact_fields prices)
    ≡ sort_values (codes "price") true none prices
sort_values-compact_example = sort_values-compact prices (codes "price") true

-- Behind "a" stand the deleted "b" and "c".
sort_values-after_example :
    sort_values (codes "price") true (some (codes "a")) prices
    ≡ keep
        (λ en. not (has en.doc_id prices.deleted))
        (let entries = lookup_or [] (codes "price") prices.entries in
          let page = behind (codes "a") entries entries in if true then reverse page else page)
sort_values-after_example = sort_values-after prices (codes "price") (codes "a") true

only_c :
    map (λ en. en.doc_id) (sort_values (codes "price") true (some (codes "a")) prices)
    ≡ codes "c" ∷ []
unfolding sort_values lookup same keep
only_c = refl

abbrev entry_of : Str → ℕ → KdEntry ℕ
entry_of doc_id value = record {
  values = (codes "price", value) ∷ [];
  doc_id = doc_id;
  deleted = false;
}

-- A tree of two leaves.
abbrev tree : KdTree ℕ
tree = record {
  root = some (
      split (codes "price") 7
        (record { min_vals = (codes "price", 5) ∷ []; max_vals = (codes "price", 9) ∷ [] })
        (leaf (record { min_vals = (codes "price", 5) ∷ []; max_vals = (codes "price", 5) ∷ [] })
          (entry_of (codes "a") 5 ∷ []))
        (leaf (record { min_vals = (codes "price", 7) ∷ []; max_vals = (codes "price", 9) ∷ [] })
          (entry_of (codes "b") 7 ∷ entry_of (codes "c") 9 ∷ [])));
  fields = codes "price" ∷ [];
}

tree-OnceIn : OnceIn (codes "b") tree.root
unfolding same
tree-OnceIn = (((λ e. tt), tt), ((λ e. (refl, tt)), ((λ e. tt), tt)))

abbrev from_six : List (FieldBound ℕ)
from_six = record { field = codes "price"; gte = some 6; lte = none; gt = none; lt = none } ∷ []

multi_range-delete_doc_example :
    multi_range naturals (delete_doc (codes "b") tree) from_six
    ≡ without (codes "b") (multi_range naturals tree from_six)
multi_range-delete_doc_example =
    multi_range-delete_doc naturals from_six (codes "b") tree tree-OnceIn
