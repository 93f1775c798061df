-- ===== src/Index/Trie/Paths.antt =====
-- In a trie of index/trie.go every term is the path to its node.
use go_search.Base.{
  ℕ, ◌≡◌, refl, sym, ◌∙◌, inl, inr, true, false, some, List, [], ◌∷◌, ◌++◌, append_assoc,
  append-nil, ◌==◌, Str, arith, ◌∈◌, ∈-append_cases, Option-cases, Bool-cases,
}
use mathlib.Core.Path.{subst}
use go_search.Index.Trie.{
  TrieNode, node, Children, nil, cons, empty_node, find, update, insert_from, insert, collect_terms,
  collect_children, descend, insert_all,
}

-- Every term in the tree is the path to its node.
unfoldable mutual
  pub IsPath : Str → TrieNode → Type 0
  IsPath path (node is_end term children) = (is_end ≡ true → term ≡ path) × ArePaths path children

  pub ArePaths : Str → Children → Type 0
  ArePaths path nil = Unit
  ArePaths path (cons r n rest) = IsPath (path ++ (r ∷ [])) n × ArePaths path rest

update-ArePaths :
    (path : Str) (r : ℕ) (f : TrieNode → TrieNode) (children : Children)
    → ((n : TrieNode) → IsPath (path ++ (r ∷ [])) n → IsPath (path ++ (r ∷ [])) (f n))
    → ArePaths path children
    → ArePaths path (update r f children)
unfolding update IsPath ArePaths
update-ArePaths path r f nil keep h = (keep empty_node ((λ e. absurd (cc)), tt), tt)
update-ArePaths path r f (cons s n rest) keep (hn, hr) = elim (Bool-cases (s == r)) [
  | inl e ↦
      let e' : s ≡ r = ground arith in
      rw e (
        subst (λ q. IsPath (path ++ (q ∷ [])) (f n)) (sym e')
            (keep n (subst (λ q. IsPath (path ++ (q ∷ [])) n) e' hn)),
        hr,
      )
  | inr e ↦ rw e (hn, update-ArePaths path r f rest keep hr)
]

insert_from-IsPath :
    (runes term path : Str) (n : TrieNode)
    → path ++ runes ≡ term
    → IsPath path n
    → IsPath path (insert_from runes term n)
unfolding insert_from IsPath
insert_from-IsPath [] term path (node is_end old children) e (h, hs) =
    ((λ _. sym e ∙ append-nil path), hs)
insert_from-IsPath (r ∷ runes) term path (node is_end old children) e (h, hs) = (
  h,
  update-ArePaths path r (insert_from runes term) children
      (λ n hn.
        insert_from-IsPath runes term (path ++ (r ∷ [])) n (append_assoc path (r ∷ []) runes ∙ e)
          hn)
      hs,
)

pub insert_all-IsPath :
    (terms : List Str) (root : TrieNode) → IsPath [] root → IsPath [] (insert_all terms root)
unfolding insert_all insert
insert_all-IsPath [] root h = h
insert_all-IsPath (term ∷ terms) root h =
    insert_all-IsPath terms (insert term root) (insert_from-IsPath term term [] root refl h)

find-IsPath :
    (path : Str) (r : ℕ) (children : Children) (n : TrieNode)
    → ArePaths path children
    → find r children ≡ some n
    → IsPath (path ++ (r ∷ [])) n
unfolding find ArePaths
find-IsPath path r nil n h e = absurd (cc)
find-IsPath path r (cons s m rest) n (hm, hr) e = elim (Bool-cases (s == r)) [
  | inl t ↦
      let s_eq : s ≡ r = ground arith in
      let m_eq : m ≡ n = ground arith in
      subst (λ q. IsPath (path ++ (q ∷ [])) n) s_eq
        (subst (λ k. IsPath (path ++ (s ∷ [])) k) m_eq hm)
  | inr t ↦ find-IsPath path r rest n hr (ground arith)
]

pub descend-IsPath :
    (runes path : Str) (n m : TrieNode)
    → IsPath path n
    → descend runes n ≡ some m
    → IsPath (path ++ runes) m
unfolding descend
descend-IsPath [] path n m h e = let e' : n ≡ m = cc in rw append-nil (subst (IsPath path) e' h)
descend-IsPath (r ∷ runes) path (node is_end old children) m h e =
    elim (Option-cases (find r children)) [
      | inl f ↦ absurd (ground arith)
      | inr (child, f) ↦
          subst (λ p. IsPath p m) (append_assoc path (r ∷ []) runes)
            (descend-IsPath runes (path ++ (r ∷ [])) child m
              (find-IsPath path r children child (unfold IsPath in h.1) f) (ground arith))
    ]

-- What `collect_terms` finds below a path continues the path.
mutual
  unfolding collect_terms collect_children IsPath ArePaths

  pub collect_prefix :
      (n : TrieNode) (path t : Str)
      → IsPath path n
      → t ∈ collect_terms n
      → (s : Str) × (t ≡ path ++ s)
  collect_prefix (node true term children) path t (h, hs) (inl e) =
      ([], e ∙ h refl ∙ sym (append-nil path))
  collect_prefix (node true term children) path t (h, hs) (inr m) =
      collect_children_prefix children path t hs m
  collect_prefix (node false term children) path t (h, hs) m =
      collect_children_prefix children path t hs m

  collect_children_prefix :
      (ns : Children) (path t : Str)
      → ArePaths path ns
      → t ∈ collect_children ns
      → (s : Str) × (t ≡ path ++ s)
  collect_children_prefix nil path t h m = absurd m
  collect_children_prefix (cons r n rest) path t (hn, hr) m =
      elim (∈-append_cases t (collect_terms n) (collect_children rest) m) [
        | inl a ↦
            let (s, e) = collect_prefix n (path ++ (r ∷ [])) t hn a in
            (r ∷ s, e ∙ append_assoc path (r ∷ []) s)
        | inr b ↦ collect_children_prefix rest path t hr b
      ]
