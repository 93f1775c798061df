-- ===== src/Index/Numeric/Build.antt =====
-- The tree that index/numeric.go builds over leaves in order.
use go_search.Base.{
  ℕ, zero, suc, ◌/◌, ◌≤◌, ◌<◌, ◌≡◌, refl, sym, ap, ◌∙◌, Option, none, some, List, [], ◌∷◌, ◌++◌,
  length, take, drop, All, All-map, arith, append_assoc, append-nil, length-take, length-drop,
}
use mathlib.Core.Path.{subst}
use go_search.Base.Bytes.{Bytes}
use go_search.Base.Map.{Map}
use go_search.Index.Numeric.{BkdNode, leaf, inner, min_encoded, max_encoded, build_tree}
use go_search.Index.NumericBlock.{NumericEntry}
use go_search.Index.Numeric.Tree.{Within, Holds}

module _ (store : Map Bytes) where
  -- Nodes whose bounds follow each other between `low` and `high`, and the entries they hold.
  abbrev pub Chain : ℕ → ℕ → List BkdNode → List NumericEntry → Type 0
  Chain low high [] es = (low ≤ high) × (es ≡ [])
  Chain low high (n ∷ ns) es =
      (a : List NumericEntry) × (b : List NumericEntry) × (es ≡ a ++ b)
      × Holds store n a
      × (low ≤ min_encoded n)
      × (min_encoded n ≤ max_encoded n)
      × Chain (max_encoded n) high ns b

  Holds-Within :
      (n : BkdNode) (es : List NumericEntry)
      → Holds store n es
      → Within (min_encoded n) (max_encoded n) es
  Holds-Within (leaf low high key) es (e, s, w) = w
  Holds-Within (inner low high left right) es (a, b, e, ha, hb, w) = w

  Chain-le :
      (low high : ℕ) (ns : List BkdNode) (es : List NumericEntry)
      → Chain low high ns es
      → low ≤ high
  Chain-le low high [] es (h, e) = h
  Chain-le low high (n ∷ ns) es (a, b, e, h, l, m, c) =
      omega (arith, Chain-le (max_encoded n) high ns b c)

  record Split (low high m : ℕ) (ns : List BkdNode) (es : List NumericEntry) : Type 0 where
    mid : ℕ
    first : List NumericEntry
    second : List NumericEntry
    whole : es ≡ first ++ second
    before : Chain low mid (take m ns) first
    behind : Chain mid high (drop m ns) second

  Chain-Split :
      (m low high : ℕ) (ns : List BkdNode) (es : List NumericEntry)
      → Chain low high ns es
      → Split low high m ns es
  Chain-Split zero low high ns es c = record {
    mid = low;
    first = [];
    second = es;
    whole = refl;
    before = (omega arith, refl);
    behind = c;
  }
  Chain-Split (suc m) low high [] es (h, e) = record {
    mid = low;
    first = [];
    second = es;
    whole = refl;
    before = (omega arith, refl);
    behind = (h, e);
  }
  Chain-Split (suc m) low high (n ∷ ns) es (a, b, e, h, l, q, c) =
      let r = Chain-Split m (max_encoded n) high ns b c in
      record {
        mid = r.mid;
        first = a ++ r.first;
        second = r.second;
        whole =
            e
            ∙ ap (λ (t : List NumericEntry). a ++ t) r.whole
            ∙ sym (append_assoc a r.first r.second);
        before = (a, r.first, refl, h, l, q, r.before);
        behind = r.behind;
      }

  All-append :
      (P : NumericEntry → Type 0) (a b : List NumericEntry) → All P a → All P b → All P (a ++ b)
  All-append P [] b ha hb = hb
  All-append P (x ∷ a) b (h, ha) hb = (h, All-append P a b ha hb)

  -- A root over a chain of nodes.
  pub record Rooted (low high : ℕ) (o : Option BkdNode) (es : List NumericEntry) : Type 0 where
    pub root : BkdNode
    pub built : o ≡ some root
    pub holds : Holds store root es
    above : low ≤ min_encoded root
    ordered : min_encoded root ≤ max_encoded root
    below : max_encoded root ≤ high

  join :
      (low mid high : ℕ) (o p : Option BkdNode) (a b es : List NumericEntry)
      → es ≡ a ++ b
      → Rooted low mid o a
      → Rooted mid high p b
      → Rooted low high
          (elim o [
            | none ↦ none
            | some left ↦ elim p [
              | none ↦ none
              | some right ↦ some (inner (min_encoded left) (max_encoded right) left right)
            ]
          ])
          es
  join low mid high o p a b es e l r = record {
    root = inner (min_encoded l.root) (max_encoded r.root) l.root r.root;
    built = rw (l.built, r.built);
    holds = (
      a,
      b,
      e,
      l.holds,
      r.holds,
      subst (Within (min_encoded l.root) (max_encoded r.root)) (sym e) (
          All-append _ a b
            (All-map a (λ x (p, q). (p, omega (arith, l.below, r.above, r.ordered)))
              (Holds-Within l.root a l.holds))
            (All-map b (λ x (p, q). (omega (arith, l.below, l.ordered, r.above), q))
              (Holds-Within r.root b r.holds))),
    );
    above = l.above;
    ordered = omega (arith, l.ordered, l.below, r.above, r.ordered);
    below = r.below;
  }

  pub build_tree-Rooted :
      (fuel low high : ℕ) (ns : List BkdNode) (es : List NumericEntry)
      → 0 < length ns
      → length ns ≤ fuel
      → Chain low high ns es
      → Rooted low high (build_tree fuel ns) es
  unfolding build_tree
  build_tree-Rooted fuel low high [] es p h c = absurd (omega arith)
  build_tree-Rooted zero low high (n ∷ ns) es p h c = absurd (omega arith)
  build_tree-Rooted (suc fuel) low high (n ∷ []) es p h (a, b, e, ho, l, q, (m, e')) = record {
    root = n;
    built = refl;
    holds =
        subst (Holds store n) (sym (e ∙ ap (λ (t : List NumericEntry). a ++ t) e' ∙ append-nil a))
          ho;
    above = l;
    ordered = q;
    below = m;
  }
  build_tree-Rooted (suc fuel) low high (n ∷ k ∷ ns) es p h c =
      let mid = length (n ∷ k ∷ ns) / 2 in
      let s = Chain-Split mid low high (n ∷ k ∷ ns) es c in
      join low s.mid high (build_tree fuel (take mid (n ∷ k ∷ ns)))
        (build_tree fuel (drop mid (n ∷ k ∷ ns))) s.first s.second es s.whole
        (build_tree-Rooted fuel low s.mid (take mid (n ∷ k ∷ ns)) s.first
          (omega (arith, length-take mid (n ∷ k ∷ ns)))
          (omega (arith, length-take mid (n ∷ k ∷ ns))) s.before)
        (build_tree-Rooted fuel s.mid high (drop mid (n ∷ k ∷ ns)) s.second
          (omega (arith, length-drop mid (n ∷ k ∷ ns)))
          (omega (arith, length-drop mid (n ∷ k ∷ ns))) s.behind)
