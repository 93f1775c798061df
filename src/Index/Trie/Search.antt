-- ===== src/Index/Trie/Search.antt =====
-- What `Search` of index/trie.go returns: the inserted terms that have the prefix, and no others.
use go_search.Base.{
  ℕ, ◌≡◌, refl, sym, ◌↔◌, ◌⊎◌, inl, inr, true, false, Option, none, some, List, [], ◌∷◌, ◌++◌, ◌==◌,
  Str, arith, ◌∈◌, ∈-append_left, ∈-append_right, ∈-append_cases, Option-cases, Bool-cases,
  has_prefix, has_prefix_sound, has_prefix-append,
}
use mathlib.Core.Path.{subst}
use go_search.Index.Trie.Paths.{IsPath, insert_all-IsPath, descend-IsPath, collect_prefix}
use go_search.Index.Trie.Stored.{stored, insert_all-stored, stored-append, stored-mem}
use go_search.Index.Trie.{
  terms_of, TrieNode, node, Children, nil, cons, empty_node, new_trie, find, update, insert_from,
  insert, collect_terms, collect_children, descend, search_terms, insert_all, children_of,
}

-- A node's terms are among those of every node above it.
find-mem :
    (r : ℕ) (children : Children) (n : TrieNode) (t : Str)
    → find r children ≡ some n
    → t ∈ collect_terms n
    → t ∈ collect_children children
unfolding find collect_children
find-mem r nil n t e m = absurd (cc)
find-mem r (cons s k rest) n t e m = elim (Bool-cases (s == r)) [
  | inl h ↦
      let k_eq : n ≡ k = ground arith in
      ∈-append_left t (collect_terms k) (collect_children rest)
        (subst (λ q. t ∈ collect_terms q) k_eq m)
  | inr h ↦
      ∈-append_right t (collect_terms k) (collect_children rest)
        (find-mem r rest n t (ground arith) m)
]

collect_terms_children :
    (n : TrieNode) (t : Str) → t ∈ collect_children (children_of n) → t ∈ collect_terms n
unfolding collect_terms
collect_terms_children (node true term children) t m = inr m
collect_terms_children (node false term children) t m = m

descend-mem :
    (runes : Str) (n m : TrieNode) (t : Str)
    → descend runes n ≡ some m
    → t ∈ collect_terms m
    → t ∈ collect_terms n
unfolding descend
descend-mem [] n m t e h = let e' : m ≡ n = cc in subst (λ q. t ∈ collect_terms q) e' h
descend-mem (r ∷ runes) n m t e h = elim (Option-cases (find r (children_of n))) [
  | inl f ↦ absurd (ground arith)
  | inr (child, f) ↦
      collect_terms_children n t
        (find-mem r (children_of n) child t f (descend-mem runes child m t (ground arith) h))
]

-- Inserting a term adds no other.
update-mem :
    (r : ℕ) (f : TrieNode → TrieNode) (children : Children) (t term : Str)
    → ((n : TrieNode) → t ∈ collect_terms (f n) → (t ≡ term) ⊎ (t ∈ collect_terms n))
    → t ∈ collect_children (update r f children)
    → (t ≡ term) ⊎ (t ∈ collect_children children)
unfolding update collect_children collect_terms
update-mem r f nil t term only m = elim (∈-append_cases t (collect_terms (f empty_node)) [] m) [
  | inl a ↦ only empty_node a
  | inr b ↦ absurd b
]
update-mem r f (cons s n rest) t term only m = elim (Bool-cases (s == r)) [
  | inl h ↦
      let m' : t ∈ (collect_terms (f n) ++ collect_children rest) = ground (arith, h, m) in
      elim (∈-append_cases t (collect_terms (f n)) (collect_children rest) m') [
        | inl a ↦ elim (only n a) [
          | inl e ↦ inl e
          | inr b ↦ inr (∈-append_left t (collect_terms n) (collect_children rest) b)
        ]
        | inr b ↦ inr (∈-append_right t (collect_terms n) (collect_children rest) b)
      ]
  | inr h ↦
      let m' : t ∈ (collect_terms n ++ collect_children (update r f rest)) = ground (arith, h, m) in
      elim (∈-append_cases t (collect_terms n) (collect_children (update r f rest)) m') [
        | inl a ↦ inr (∈-append_left t (collect_terms n) (collect_children rest) a)
        | inr b ↦ elim (update-mem r f rest t term only b) [
          | inl e ↦ inl e
          | inr c ↦ inr (∈-append_right t (collect_terms n) (collect_children rest) c)
        ]
      ]
]

insert_from-mem :
    (runes term t : Str) (n : TrieNode)
    → t ∈ collect_terms (insert_from runes term n)
    → (t ≡ term) ⊎ (t ∈ collect_terms n)
unfolding insert_from collect_terms
insert_from-mem [] term t (node true old children) (inl e) = inl e
insert_from-mem [] term t (node true old children) (inr m) = inr (inr m)
insert_from-mem [] term t (node false old children) (inl e) = inl e
insert_from-mem [] term t (node false old children) (inr m) = inr m
insert_from-mem (r ∷ runes) term t (node true old children) (inl e) = inr (inl e)
insert_from-mem (r ∷ runes) term t (node true old children) (inr m) =
    elim (update-mem r (insert_from runes term) children t term
      (λ n. insert_from-mem runes term t n) m) [ inl e ↦ inl e | inr k ↦ inr (inr k) ]
insert_from-mem (r ∷ runes) term t (node false old children) m =
    update-mem r (insert_from runes term) children t term (λ n. insert_from-mem runes term t n) m

insert_all-mem :
    (terms : List Str) (root : TrieNode) (t : Str)
    → t ∈ collect_terms (insert_all terms root)
    → (t ∈ terms) ⊎ (t ∈ collect_terms root)
unfolding insert_all insert
insert_all-mem [] root t m = inr m
insert_all-mem (term ∷ terms) root t m =
    elim (insert_all-mem terms (insert_from term term root) t m) [
      | inl a ↦ inl (inr a)
      | inr b ↦ elim (insert_from-mem term term t root b) [ inl e ↦ inl (inl e) | inr c ↦ inr c ]
    ]

-- The terms that a search returns; none for a prefix that is not in the tree.
abbrev pub results : Option (List Str) → List Str
results none = []
results (some terms) = terms

search_sound :
    (prefix t : Str) (root : TrieNode) (o : Option TrieNode)
    → IsPath [] root
    → descend prefix root ≡ o
    → t ∈ results (search_terms prefix root)
    → (has_prefix t prefix ≡ true) × (t ∈ collect_terms root)
unfolding search_terms
search_sound prefix t root none h e m =
    absurd (subst (λ (o : Option TrieNode). t ∈ results (terms_of o)) e m)
search_sound prefix t root (some n) h e m =
    let m' = subst (λ (o : Option TrieNode). t ∈ results (terms_of o)) e m in
    let (s, t_eq) = collect_prefix n prefix t (descend-IsPath prefix [] root n h e) m' in
    (rw t_eq (has_prefix-append prefix s), descend-mem prefix root n t e m')

search_complete :
    (prefix t : Str) (root : TrieNode)
    → stored t root ≡ some t
    → has_prefix t prefix ≡ true
    → t ∈ results (search_terms prefix root)
unfolding search_terms
search_complete prefix t root h p =
    let (s, t_eq) = has_prefix_sound t prefix p in
    let (n, down, at_s) =
      stored-append prefix s root t (subst (λ q. stored q root ≡ some t) t_eq h) in
    let (k, down', m) = stored-mem s n t at_s in
    subst (λ (o : Option TrieNode). t ∈ results (terms_of o)) (sym down)
      (descend-mem s n k t down' m)

-- A search of a trie that was built by insertions returns exactly the inserted terms that have the
-- prefix.
pub search_terms_iff :
    (terms : List Str) (prefix t : Str)
    → (t ∈ results (search_terms prefix (insert_all terms new_trie)))
      ↔ ((t ∈ terms) × (has_prefix t prefix ≡ true))
unfolding IsPath collect_terms
search_terms_iff terms prefix t = (
  (λ m.
      let (p, in_root) =
        search_sound prefix t (insert_all terms new_trie) _
          (insert_all-IsPath terms new_trie ((λ e. absurd (cc)), tt)) refl m in
      elim (insert_all-mem terms new_trie t in_root) [ inl a ↦ (a, p) | inr b ↦ absurd b ]),
  (λ (m, p).
      search_complete prefix t (insert_all terms new_trie) (insert_all-stored terms new_trie t m)
        p),
)
