-- ===== src/Index/Trie.antt =====
-- index/trie.go: the set of indexed terms as a tree over their runes. A node holds its children by
-- value: no two nodes share a child. Ranging over the children goes through them in their order.
pub mod Paths
pub mod Search
pub mod Stored
use go_search.Base.{
  ℕ, Bool, true, false, Option, none, some, List, [], ◌∷◌, ◌++◌, ◌==◌, if◌then◌else◌, Str,
}

mutual
  pub data TrieNode : Type 0 where
    node : Bool → Str → Children → TrieNode

  pub data Children : Type 0 where
    nil : Children
    cons : ℕ → TrieNode → Children → Children

abbrev pub empty_node : TrieNode
empty_node = node false [] nil

-- `NewTrie`: a trie is its root.
abbrev pub new_trie : TrieNode
new_trie = empty_node

-- `child, exists := node.children[r]`
unfoldable pub find : ℕ → Children → Option TrieNode
find r nil = none
find r (cons s n rest) = if s == r then some n else find r rest

-- The child at `r`, made if it is not there, after `f`.
unfoldable pub update : ℕ → (TrieNode → TrieNode) → Children → Children
update r f nil = cons r (f empty_node) nil
update r f (cons s n rest) = if s == r then cons s (f n) rest else cons s n (update r f rest)

-- The loop of `Insert`: `runes` is what is left of `term`.
unfoldable pub insert_from : Str → Str → TrieNode → TrieNode
insert_from [] term (node is_end old children) = node true term children
insert_from (r ∷ runes) term (node is_end old children) =
    node is_end old (update r (insert_from runes term) children)

unfoldable pub insert : Str → TrieNode → TrieNode
insert term root = insert_from term term root

unfoldable mutual
  pub collect_terms : TrieNode → List Str
  collect_terms (node is_end term children) =
      let rest = collect_children children in if is_end then term ∷ rest else rest

  pub collect_children : Children → List Str
  collect_children nil = []
  collect_children (cons r n rest) = collect_terms n ++ collect_children rest

abbrev pub children_of : TrieNode → Children
children_of (node is_end term children) = children

-- The loop of `Search`: the node under a prefix.
unfoldable pub descend : Str → TrieNode → Option TrieNode
descend [] n = some n
descend (r ∷ runes) n = elim (find r (children_of n)) [
  | none ↦ none
  | some child ↦ descend runes child
]

abbrev pub terms_of : Option TrieNode → Option (List Str)
terms_of none = none
terms_of (some n) = some (collect_terms n)

-- `none` is the nil result for a prefix that is not in the tree.
unfoldable pub search_terms : Str → TrieNode → Option (List Str)
search_terms prefix root = terms_of (descend prefix root)

-- A trie after these insertions.
unfoldable pub insert_all : List Str → TrieNode → TrieNode
insert_all [] root = root
insert_all (term ∷ terms) root = insert_all terms (insert term root)
