-- ===== src/Index/Numeric/Tree.antt =====
-- The tree of blocks of index/numeric.go: what it holds, and what a search of it finds.
use go_search.Base.{
  ℕ, ◌≤◌, ◌≡◌, sym, ap, ◌∙◌, true, not, ◌||◌, some, List, [], ◌++◌, map, ltb, keep, keep-append,
  keep_none, All, All-map, arith, inl, inr, Bool-cases,
}
use mathlib.Core.List.{map-append}
use go_search.Base.Bytes.{Bytes}
use go_search.Base.Map.{Map, has, StrSet}
use go_search.Index.Numeric.{
  BkdNode, leaf, inner, load_block, live_ids, search_block, search_tree, in_bounds,
  load_entries_below,
}
use go_search.Index.NumericBlock.{NumericEntry}
use go_search.Index.Numeric.Bisect.{SortedFrom, search_block-eq}

-- The values of entries lie between the bounds of a node.
abbrev pub Within : ℕ → ℕ → List NumericEntry → Type 0
Within low high = All (λ e. (low ≤ e.value) × (e.value ≤ high))

-- The entries of the blocks below a node, in order.
abbrev pub Holds : Map Bytes → BkdNode → List NumericEntry → Type 0
Holds store (leaf low high key) es =
    (load_block store key ≡ es) × SortedFrom low es × Within low high es
Holds store (inner low high left right) es =
    (a : List NumericEntry) × (b : List NumericEntry) × (es ≡ a ++ b)
    × Holds store left a
    × Holds store right b
    × Within low high es

live_ids-append :
    (deleted : StrSet) (lo hi : ℕ) (a b : List NumericEntry)
    → live_ids deleted (keep (in_bounds lo hi) (a ++ b))
      ≡ live_ids deleted (keep (in_bounds lo hi) a) ++ live_ids deleted (keep (in_bounds lo hi) b)
live_ids-append deleted lo hi a b =
    ap (live_ids deleted) (keep-append (in_bounds lo hi) a b)
    ∙ ap (map (λ e. e.doc_id)) (
        keep-append (λ e. not (has e.doc_id deleted)) (keep (in_bounds lo hi) a)
          (keep (in_bounds lo hi) b))
    ∙ map-append (λ (e : NumericEntry). e.doc_id)
        (keep (λ e. not (has e.doc_id deleted)) (keep (in_bounds lo hi) a))
        (keep (λ e. not (has e.doc_id deleted)) (keep (in_bounds lo hi) b))

pruned :
    (deleted : StrSet) (low high lo hi : ℕ) (es : List NumericEntry)
    → Within low high es
    → (ltb high lo || ltb hi low) ≡ true
    → live_ids deleted (keep (in_bounds lo hi) es) ≡ []
unfolding keep
pruned deleted low high lo hi es w h =
    ap (live_ids deleted) (keep_none (in_bounds lo hi) es (All-map es (λ x l. ground arith) w))

pub search_tree-eq :
    (store : Map Bytes) (deleted : StrSet) (lo hi : ℕ) (n : BkdNode) (es : List NumericEntry)
    → Holds store n es
    → search_tree store deleted n lo hi ≡ some (live_ids deleted (keep (in_bounds lo hi) es))
unfolding search_tree
search_tree-eq store deleted lo hi (leaf low high key) es (e, s, w) =
    elim (Bool-cases (ltb high lo || ltb hi low)) [
      | inl q ↦ rw q (sym (ap some (pruned deleted low high lo hi es w q)))
      | inr q ↦
          rw q (ap (λ k. search_block deleted k lo hi) e ∙ search_block-eq deleted low lo hi es s)
    ]
search_tree-eq store deleted lo hi (inner low high left right) es (a, b, e, ha, hb, w) =
    elim (Bool-cases (ltb high lo || ltb hi low)) [
      | inl q ↦ rw q (sym (ap some (pruned deleted low high lo hi es w q)))
      | inr q ↦ rw q (
          rw
            (
              search_tree-eq store deleted lo hi left a ha,
              search_tree-eq store deleted lo hi right b hb,
            )
            (sym (
              ap some (
                ap (λ k. live_ids deleted (keep (in_bounds lo hi) k)) e
                ∙ live_ids-append deleted lo hi a b))))
    ]

pub load_entries_below-eq :
    (store : Map Bytes) (n : BkdNode) (es : List NumericEntry)
    → Holds store n es
    → load_entries_below store n ≡ es
unfolding load_entries_below
load_entries_below-eq store (leaf low high key) es (e, s, w) = e
load_entries_below-eq store (inner low high left right) es (a, b, e, ha, hb, w) =
    rw (load_entries_below-eq store left a ha, load_entries_below-eq store right b hb) (sym e)
