-- ===== src/Engine/TermSearch/Selected.antt =====
-- Which terms of the index `FuzzySearch` and `WildcardSearch` of engine/search.go look up.
use go_search.Base.{
  ℕ, ◌≡◌, refl, sym, ap, ◌∙◌, Bool, false, ◌&&◌, ◌||◌, Option, none, some, List, [], ◌∷◌, ◌++◌,
  if◌then◌else◌, leb, length, take, drop, keep, Str, same, is_some, inl, inr, Bool-cases,
  Option-cases,
}
use mathlib.Core.Option
use go_search.Analysis.EditDistance.{edit_distance}
use go_search.Index.KdTree.{Sorting}
use go_search.Engine.Searcher.{Searcher}
use go_search.Engine.Search.Candidates.{posted}
use go_search.Engine.Search.Hits.{has_hit, KeepsHits}
use go_search.Engine.TermSearch.{
  before_colon, split_colon, near_term, near_terms, matching_terms, fuzzy_search, wildcard_search,
  ranked, best_of_terms,
}
use go_search.Engine.TermSearch.Reached.{reached, has_hit-ranked}
use go_search.Engine.TermSearch.Parts.{
  strip, has_colon, all_have_colon, word_of, has_second, second_part, split_colon-has_second,
  split_colon-second_part, strip-take,
}

module _ {F : Type 0} (s : Searcher F) where
  -- Whether there is a word that passes a test and whose key has a posting of the document.
  abbrev pub posts_word : Str → (Str → Bool) → (Str → Str) → Option Str → Bool
  posts_word id test key none = false
  posts_word id test key (some word) = test word && posted id (s.postings_of (key word))

  -- Whether one of the index terms has such a word: for the fuzzy search one within the distance,
  -- which is looked up as the field's, and for the wildcard search all that follows the field.
  abbrev pub near_posted : Str → Str → Str → ℕ → List Str → Bool
  near_posted id field term max_distance [] = false
  near_posted id field term max_distance (t ∷ terms) =
      posts_word id (λ word. leb (edit_distance term word) max_distance)
        (λ word. field ++ (b':' ∷ word)) (word_of field t)
      || near_posted id field term max_distance terms

  abbrev pub matching_posted : Str → Str → (Str → Bool) → List Str → Bool
  matching_posted id field matches [] = false
  matching_posted id field matches (t ∷ terms) =
      posts_word id matches (λ word. t) (strip (field ++ (b':' ∷ [])) t)
      || matching_posted id field matches terms

  -- One term of the fuzzy search, with the parts of the term.
  near_term-reached :
      (id field term : Str) (max_distance : ℕ) (parts : Str × List Str) (found : List Str)
      → Option.map (reached s id) (near_term field term max_distance parts found) ≡ (
          if has_second parts
          then some (
              posts_word id
                (λ word. leb (edit_distance term word) max_distance)
                (λ word. field ++ (b':' ∷ word))
                (second_part field parts)
              || reached s id found)
          else none)
  near_term-reached id field term max_distance (part, []) found = refl
  near_term-reached id field term max_distance (part, raw ∷ parts) found =
      elim (Bool-cases (same field part)) [
        | inl e ↦ elim (Bool-cases (leb (edit_distance term raw) max_distance)) [
          | inl d ↦ rw (e, d)
          | inr d ↦ rw (e, d)
        ]
        | inr e ↦ rw e
      ]

  near_terms-reached :
      (id field term : Str) (max_distance : ℕ) (terms : List Str)
      → Option.map (reached s id) (near_terms field term max_distance terms) ≡ (
          if all_have_colon terms
          then some (near_posted id field term max_distance terms)
          else none)
  unfolding near_terms
  near_terms-reached id field term max_distance [] = refl
  near_terms-reached id field term max_distance (t ∷ terms) =
      let rest = near_terms-reached id field term max_distance terms in
      elim (Option-cases (near_terms field term max_distance terms)) [
        | inl e ↦ elim (Bool-cases (all_have_colon terms)) [
          | inl a ↦ absurd (cc)
          | inr a ↦ rw (e, a) (elim (Bool-cases (has_colon t)) [ inl h ↦ rw h | inr h ↦ rw h ])
        ]
        | inr (found, e) ↦ elim (Bool-cases (all_have_colon terms)) [
          | inl a ↦
              let eq : some (reached s id found)
                  ≡ some (near_posted id field term max_distance terms) =
                rw (e, a) at rest in
              let eq' : reached s id found ≡ near_posted id field term max_distance terms = cc in
              rw (e, a)
                (near_term-reached id field term max_distance (split_colon t) found
                  ∙ rw (split_colon-has_second t, split_colon-second_part field t, eq')
                      (elim (Bool-cases (has_colon t)) [ inl h ↦ rw h | inr h ↦ rw h ]))
          | inr a ↦ absurd (cc)
        ]
      ]

  matching_terms-reached :
      (id field : Str) (matches : Str → Bool) (terms : List Str)
      → reached s id (matching_terms field matches terms) ≡ matching_posted id field matches terms
  unfolding matching_terms keep
  matching_terms-reached id field matches [] = refl
  matching_terms-reached id field matches (t ∷ terms) =
      let start = field ++ (b':' ∷ []) in
      let rest = matching_terms-reached id field matches terms in
      rw (sym (strip-take start t)) (elim (Bool-cases (same (take (length start) t) start)) [
        | inl e ↦ elim (Bool-cases (matches (drop (length start) t))) [
          | inl m ↦ rw (e, m, rest)
          | inr m ↦ rw (e, m, rest)
        ]
        | inr e ↦ rw (e, rest)
      ])

  -- `FuzzySearch` without a limit panics when an index term has no colon. Otherwise it returns a
  -- document exactly when it is stored and, for one of the index terms that begin with the field
  -- and a colon, the word up to the next colon is within the distance and the index has a posting
  -- of the document for the field and this word; for a field with a colon it returns nothing.
  -- `WildcardSearch` without a limit returns a document exactly when it is stored and one of the
  -- index terms that begin with the field and a colon has a posting of it and goes on with a match
  -- of the regular expression. The sorting keeps the results that it is given.
  pub has_hit-term_searches :
      (sorting : Sorting) (id : Str) (index_terms : List Str) (field term : Str) (max_distance : ℕ)
      (matches : Str → Bool)
      → KeepsHits sorting F
      → (Option.map (has_hit id) (fuzzy_search s sorting index_terms field term max_distance 0) ≡ (
          if all_have_colon index_terms
          then some (near_posted id field term max_distance index_terms && is_some (s.stored id))
          else none))
        × (has_hit id (wildcard_search s sorting index_terms field matches 0)
            ≡ (matching_posted id field matches index_terms && is_some (s.stored id)))
  unfolding fuzzy_search wildcard_search
  has_hit-term_searches sorting id index_terms field term max_distance matches k = (
    hits_of_found (near_terms field term max_distance index_terms)
        ∙ ap (Option.map (λ b. b && is_some (s.stored id)))
            (near_terms-reached id field term max_distance index_terms)
        ∙ elim (Bool-cases (all_have_colon index_terms)) [ inl a ↦ rw a | inr a ↦ rw a ],
    has_hit-ranked s sorting id before_colon (matching_terms field matches index_terms) k
        ∙ rw (matching_terms-reached id field matches index_terms),
  )
    where
      hits_of_found :
          (found : Option (List Str))
          → Option.map (has_hit id) (
              Option.map
                (λ terms. ranked s sorting 0 (best_of_terms s (λ t. field) terms []))
                found)
            ≡ Option.map (λ b. b && is_some (s.stored id)) (Option.map (reached s id) found)
      hits_of_found none = refl
      hits_of_found (some terms) = ap some (has_hit-ranked s sorting id (λ t. field) terms k)
