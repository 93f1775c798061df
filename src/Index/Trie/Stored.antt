-- ===== src/Index/Trie/Stored.antt =====
-- What a trie of index/trie.go stores at a path, and that an insertion changes one path.
use go_search.Base.{
  ℕ, ◌≡◌, refl, sym, ◌∙◌, inl, inr, true, false, Option, none, some, List, [], ◌∷◌, ◌++◌, ◌==◌,
  if◌then◌else◌, Str, arith, ◌∈◌, Option-cases, Bool-cases, same, same_iff, same_refl,
}
use go_search.Base.Map.{value_or}
use go_search.Index.Trie.{
  TrieNode, node, Children, nil, cons, empty_node, find, update, insert_from, insert, collect_terms,
  descend, insert_all, children_of,
}

end_term : Option TrieNode → Option Str
end_term none = none
end_term (some (node true term children)) = some term
end_term (some (node false term children)) = none

pub stored : Str → TrieNode → Option Str
unfolding end_term
stored path n = end_term (descend path n)

find-update :
    (r s : ℕ) (f : TrieNode → TrieNode) (children : Children)
    → find s (update r f children)
      ≡ (if r == s then some (f (value_or empty_node (find r children))) else find s children)
unfolding find update
find-update r s f nil = ground arith
find-update r s f (cons q n rest) = ground (arith, find-update r s f rest)

stored-empty : (path : Str) → stored path empty_node ≡ none
unfolding stored descend find
stored-empty [] = refl
stored-empty (r ∷ path) = refl

stored-step :
    (r : ℕ) (path : Str) (n : TrieNode)
    → stored (r ∷ path) n ≡ stored path (value_or empty_node (find r (children_of n)))
unfolding stored descend
stored-step r path n = elim (Option-cases (find r (children_of n))) [
  | inl f ↦ rw (f, descend) (sym (stored-empty path))
  | inr (child, f) ↦ rw (f, descend)
]

stored-insert_from :
    (p q term : Str) (n : TrieNode)
    → stored q (insert_from p term n) ≡ (if same p q then some term else stored q n)
unfolding stored descend insert_from same
stored-insert_from [] [] term (node is_end old children) = refl
stored-insert_from [] (s ∷ q) term (node is_end old children) = refl
stored-insert_from (r ∷ p) [] term (node true old children) = refl
stored-insert_from (r ∷ p) [] term (node false old children) = refl
stored-insert_from (r ∷ p) (s ∷ q) term (node is_end old children) =
    rw
      (
        stored-step s q,
        stored-step s q (node is_end old children),
        find-update r s (insert_from p term) children,
      )
      (elim (Bool-cases (r == s)) [
        | inl e ↦
            let r_eq : r ≡ s = ground arith in
            rw e (stored-insert_from p q term (value_or empty_node (find r children)) ∙ rw r_eq)
        | inr e ↦ rw e
      ])

pub stored-insert :
    (p q : Str) (n : TrieNode) → stored q (insert p n) ≡ (if same p q then some p else stored q n)
unfolding insert
stored-insert p q n = stored-insert_from p q p n

-- A stored term stays, and every inserted term is stored at its own path.
insert_all-keeps :
    (terms : List Str) (n : TrieNode) (t : Str)
    → stored t n ≡ some t
    → stored t (insert_all terms n) ≡ some t
unfolding insert_all
insert_all-keeps [] n t h = h
insert_all-keeps (p ∷ terms) n t h =
    insert_all-keeps terms (insert p n) t (ground (arith, stored-insert p t n, same_iff p t))

pub insert_all-stored :
    (terms : List Str) (n : TrieNode) (t : Str) → t ∈ terms → stored t (insert_all terms n) ≡ some t
unfolding insert_all
insert_all-stored [] n t m = absurd m
insert_all-stored (p ∷ terms) n t (inl e) =
    insert_all-keeps terms (insert p n) t
      (ground (arith, stored-insert p t n, same_iff p t, same_refl t))
insert_all-stored (p ∷ terms) n t (inr m) = insert_all-stored terms (insert p n) t m

-- A stored term is found by walking its prefix and then the rest.
pub stored-append :
    (p q : Str) (n : TrieNode) (t : Str)
    → stored (p ++ q) n ≡ some t
    → (m : TrieNode) × (descend p n ≡ some m) × (stored q m ≡ some t)
unfolding stored descend
stored-append [] q n t h = (n, refl, h)
stored-append (r ∷ p) q n t h = elim (Option-cases (find r (children_of n))) [
  | inl f ↦ absurd (let h' : end_term none ≡ some t = rw (f, descend) at h in cc)
  | inr (child, f) ↦
      let (m, e, k) = stored-append p q child t (rw (f, descend) at h) in (m, rw (f, descend) e, k)
]

end_term-mem : (n : TrieNode) (t : Str) → end_term (some n) ≡ some t → t ∈ collect_terms n
unfolding end_term collect_terms
end_term-mem (node true term children) t h = inl (cc)
end_term-mem (node false term children) t h = absurd (cc)

stored_node :
    (o : Option TrieNode) (t : Str)
    → end_term o ≡ some t
    → (m : TrieNode) × (o ≡ some m) × (t ∈ collect_terms m)
stored_node none t h = absurd (unfold end_term in cc)
stored_node (some m) t h = (m, refl, end_term-mem m t h)

pub stored-mem :
    (q : Str) (n : TrieNode) (t : Str)
    → stored q n ≡ some t
    → (m : TrieNode) × (descend q n ≡ some m) × (t ∈ collect_terms m)
unfolding stored
stored-mem q n t h = stored_node (descend q n) t h
