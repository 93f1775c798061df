-- ===== src/Engine/Search/Allowed.antt =====
-- What the filters of engine/search.go demand of a stored document, one by one.
use go_search.Base.{
  ◌≡◌, refl, Bool, true, false, ◌&&◌, Option, none, some, List, [], ◌∷◌, Str, is_some, inl, inr,
  Bool-cases, Option-cases,
}
use go_search.Base.Map.{lookup}
use go_search.Query.Clause.{Query, TermsClause, RegexClause}
use go_search.Engine.Document.{Document, Field}
use go_search.Engine.Filters.{is_one_of, pass_terms_filters, pass_regex_filters}
use go_search.Engine.Searcher.{Searcher, filtered}

abbrev pub all_met {ℓ} : {A : Type ℓ} → (A → Bool) → List A → Bool
all_met p [] = true
all_met p (x ∷ xs) = p x && all_met p xs

module _ {F : Type 0} where
  -- The document has the field, with one of the values, or with a value that the expression matches.
  abbrev value_in : Option (Field F) → List Str → Bool
  value_in none values = false
  value_in (some f) values = is_one_of f.value values

  abbrev pub terms_met : Document F → TermsClause → Bool
  terms_met doc tc = value_in (lookup tc.field doc.fields) tc.values

  abbrev matched_by : Option (Field F) → Option (Str → Bool) → Bool
  matched_by none matches = false
  matched_by (some f) none = false
  matched_by (some f) (some matches) = matches f.value

  abbrev pub regex_met : (Str → Option (Str → Bool)) → Document F → RegexClause → Bool
  regex_met compile doc rc = matched_by (lookup rc.field doc.fields) (compile rc.regex)

  pass_terms_filters-eq :
      (doc : Document F) (terms : List TermsClause)
      → pass_terms_filters doc terms ≡ all_met (terms_met doc) terms
  unfolding pass_terms_filters
  pass_terms_filters-eq doc [] = refl
  pass_terms_filters-eq doc (tc ∷ terms) = elim (Option-cases (lookup tc.field doc.fields)) [
    | inl e ↦ rw (e, pass_terms_filters)
    | inr (f, e) ↦ elim (Bool-cases (is_one_of f.value tc.values)) [
      | inl h ↦ rw (e, pass_terms_filters, h) (pass_terms_filters-eq doc terms)
      | inr h ↦ rw (e, pass_terms_filters, h)
    ]
  ]

  pass_regex_filters-eq :
      (compile : Str → Option (Str → Bool)) (doc : Document F) (regexes : List RegexClause)
      → pass_regex_filters compile doc regexes ≡ all_met (regex_met compile doc) regexes
  unfolding pass_regex_filters
  pass_regex_filters-eq compile doc [] = refl
  pass_regex_filters-eq compile doc (rc ∷ regexes) =
      elim (Option-cases (lookup rc.field doc.fields)) [
        | inl e ↦ rw (e, pass_regex_filters)
        | inr (f, e) ↦ elim (Option-cases (compile rc.regex)) [
          | inl g ↦ rw (e, pass_regex_filters, g)
          | inr (matches, g) ↦ elim (Bool-cases (matches f.value)) [
            | inl h ↦ rw (e, pass_regex_filters, g, h) (pass_regex_filters-eq compile doc regexes)
            | inr h ↦ rw (e, pass_regex_filters, g, h)
          ]
        ]
      ]

  abbrev pub allowed_doc : Searcher F → Query F → Option (Document F) → Bool
  allowed_doc s q none = false
  allowed_doc s q (some doc) =
      all_met (terms_met doc) q.terms && all_met (regex_met s.compile doc) q.regexes

  -- The document is stored, and meets every filter.
  abbrev pub allowed : Searcher F → Query F → Str → Bool
  allowed s q id = allowed_doc s q (s.stored id)

  pub filtered-allowed :
      (s : Searcher F) (q : Query F) (id : Str) → is_some (filtered s q id) ≡ allowed s q id
  unfolding filtered
  filtered-allowed s q id = elim (Option-cases (s.stored id)) [
    | inl e ↦ rw (e, filtered)
    | inr (doc, e) ↦
        rw
          (
            e,
            filtered,
            pass_terms_filters-eq doc q.terms,
            pass_regex_filters-eq s.compile doc q.regexes,
          )
          (elim (Bool-cases (all_met (terms_met doc) q.terms)) [
            | inr h ↦ rw h
            | inl h ↦ elim (Bool-cases (all_met (regex_met s.compile doc) q.regexes)) [
              | inl g ↦ rw (h, g)
              | inr g ↦ rw (h, g)
            ]
          ])
  ]
