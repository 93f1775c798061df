-- ===== src/Engine/TermSearch/Reached.antt =====
-- Which documents the searches by terms of engine/search.go return for the terms they look up.
use go_search.Base.{
  ◌≡◌, refl, sym, ap, ◌∙◌, Bool, false, ◌&&◌, ◌||◌, Option, none, some, List, [], ◌∷◌, map, Str,
  same, same_iff, is_some, arith, inl, inr, Bool-cases, Option-cases,
}
use go_search.Base.Map.{Map, lookup, insert, has, lookup-insert, lookup-empty}
use go_search.Index.Posting.{Posting}
use go_search.Index.KdTree.{Sorting}
use go_search.Engine.Document.{Document, Result}
use go_search.Engine.Searcher.{Searcher}
use go_search.Engine.Search.{higher_score}
use go_search.Engine.Search.Candidates.{posted}
use go_search.Engine.Search.Hits.{has_hit, KeepsHits}
use go_search.Engine.TermSearch.{
  term_result, keep_best, add_stored, best_of_postings, best_of_terms, ranked, average_of,
}

module _ {F : Type 0} where
  -- Each result stands under its own ID.
  abbrev Named : Map (Result F) → Type 0
  Named [] = Unit
  Named ((id, r) ∷ seen) = (r.id ≡ id) × Named seen

  insert-Named : (r : Result F) (seen : Map (Result F)) → Named seen → Named (insert r.id r seen)
  unfolding insert
  insert-Named r [] o = (refl, tt)
  insert-Named r ((i, q) ∷ seen) (e, o) = elim (Bool-cases (same i r.id)) [
    | inl h ↦ rw h (refl, o)
    | inr h ↦ rw h (e, insert-Named r seen o)
  ]

  has_hit-values :
      (id : Str) (seen : Map (Result F))
      → Named seen
      → has_hit id (map (λ kv. kv.1) seen) ≡ has id seen
  unfolding lookup
  has_hit-values id [] o = refl
  has_hit-values id ((i, r) ∷ seen) (e, o) = elim (Bool-cases (same i id)) [
    | inl h ↦ rw (e, h)
    | inr h ↦ rw (e, h) (has_hit-values id seen o)
  ]

module _ {F : Type 0} (s : Searcher F) where
  keep_best-Named :
      (r : Result F) (o : Option (Result F)) (seen : Map (Result F))
      → Named seen
      → Named (keep_best s r o seen)
  keep_best-Named r none seen n = insert-Named r seen n
  keep_best-Named r (some existing) seen n = elim (Bool-cases (s.less existing.score r.score)) [
    | inl e ↦ rw e (insert-Named r seen n)
    | inr e ↦ rw e n
  ]

  has-keep_best :
      (id : Str) (r : Result F) (seen : Map (Result F))
      → has id (keep_best s r (lookup r.id seen) seen) ≡ (same r.id id || has id seen)
  has-keep_best id r seen = elim (Option-cases (lookup r.id seen)) [
    | inl e ↦
        rw (e, lookup-insert r.id id r seen)
          (elim (Bool-cases (same r.id id)) [ inl h ↦ rw h | inr h ↦ rw h ])
    | inr (existing, e) ↦ elim (Bool-cases (s.less existing.score r.score)) [
      | inl l ↦
          rw (e, l, lookup-insert r.id id r seen)
            (elim (Bool-cases (same r.id id)) [ inl h ↦ rw h | inr h ↦ rw h ])
      | inr l ↦
          rw (e, l)
            (elim (Bool-cases (same r.id id)) [
              | inl h ↦
                  let eq : lookup id seen ≡ some existing =
                    sym (ap (λ i. lookup i seen) ((same_iff r.id id).0 h)) ∙ e in
                  rw (h, eq)
              | inr h ↦ rw h
            ])
    ]
  ]

  -- What a posting of a stored document, and of one that is not stored, leaves.
  add_stored-Named :
      (term field : Str) (avg : F) (p : Posting) (o : Option (Document F)) (seen : Map (Result F))
      → Named seen
      → Named (add_stored s term field avg p o seen)
  add_stored-Named term field avg p none seen n = n
  add_stored-Named term field avg p (some doc) seen n =
      keep_best-Named (term_result s term field avg p doc) (lookup p.doc_id seen) seen n

  has-add_stored :
      (id term field : Str) (avg : F) (p : Posting) (o : Option (Document F))
      (seen : Map (Result F))
      → has id (add_stored s term field avg p o seen)
        ≡ ((same p.doc_id id && is_some o) || has id seen)
  unfolding term_result
  has-add_stored id term field avg p none seen = ground arith
  has-add_stored id term field avg p (some doc) seen =
      has-keep_best id (term_result s term field avg p doc) seen ∙ ground arith

  best_of_postings-Named :
      (term field : Str) (avg : F) (ps : List Posting) (seen : Map (Result F))
      → Named seen
      → Named (best_of_postings s term field avg ps seen)
  unfolding best_of_postings
  best_of_postings-Named term field avg [] seen n = n
  best_of_postings-Named term field avg (p ∷ ps) seen n =
      best_of_postings-Named term field avg ps _
        (add_stored-Named term field avg p (s.stored p.doc_id) seen n)

  has-best_of_postings :
      (id term field : Str) (avg : F) (ps : List Posting) (seen : Map (Result F))
      → has id (best_of_postings s term field avg ps seen)
        ≡ ((posted id ps && is_some (s.stored id)) || has id seen)
  unfolding best_of_postings
  has-best_of_postings id term field avg [] seen = refl
  has-best_of_postings id term field avg (p ∷ ps) seen =
      has-best_of_postings id term field avg ps
        (add_stored s term field avg p (s.stored p.doc_id) seen)
      ∙ rw (has-add_stored id term field avg p (s.stored p.doc_id) seen)
          (elim (Bool-cases (same p.doc_id id)) [
            | inl e ↦
                let eq : s.stored p.doc_id ≡ s.stored id =
                  ap s.stored ((same_iff p.doc_id id).0 e) in
                rw (e, eq) (ground arith)
            | inr e ↦ rw e
          ])

  -- Whether one of the terms has a posting of the document.
  abbrev pub reached : Str → List Str → Bool
  reached id [] = false
  reached id (term ∷ terms) = posted id (s.postings_of term) || reached id terms

  best_of_terms-Named :
      (field_of : Str → Str) (terms : List Str) (seen : Map (Result F))
      → Named seen
      → Named (best_of_terms s field_of terms seen)
  unfolding best_of_terms
  best_of_terms-Named field_of [] seen n = n
  best_of_terms-Named field_of (term ∷ terms) seen n = best_of_terms-Named field_of terms _ (
      best_of_postings-Named term (field_of term) (average_of s (field_of term))
        (s.postings_of term) seen n)

  has-best_of_terms :
      (id : Str) (field_of : Str → Str) (terms : List Str) (seen : Map (Result F))
      → has id (best_of_terms s field_of terms seen)
        ≡ ((reached id terms && is_some (s.stored id)) || has id seen)
  unfolding best_of_terms
  has-best_of_terms id field_of [] seen = refl
  has-best_of_terms id field_of (term ∷ terms) seen =
      let avg = average_of s (field_of term) in
      has-best_of_terms id field_of terms
        (best_of_postings s term (field_of term) avg (s.postings_of term) seen)
      ∙ rw (has-best_of_postings id term (field_of term) avg (s.postings_of term) seen)
          (ground arith)

  pub has_hit-ranked :
      (sorting : Sorting) (id : Str) (field_of : Str → Str) (terms : List Str)
      → KeepsHits sorting F
      → has_hit id (ranked s sorting 0 (best_of_terms s field_of terms []))
        ≡ (reached id terms && is_some (s.stored id))
  unfolding ranked
  has_hit-ranked sorting id field_of terms k =
      k.slice (higher_score s) id (map (λ kv. kv.1) (best_of_terms s field_of terms []))
      ∙ has_hit-values id (best_of_terms s field_of terms [])
          (best_of_terms-Named field_of terms [] tt)
      ∙ has-best_of_terms id field_of terms []
      ∙ rw (lookup-empty id) (ground arith)
