-- ===== src/Tests/Queries.antt =====
-- query/match.go and query/phrase.go on concrete inputs.
use go_search.Base.{ℕ, ◌+◌, ◌≡◌, ◌↔◌, true, [], ◌∷◌, codes}
use go_search.Base.Map.{Map}
use go_search.Index.Posting.{Posting}
use go_search.Query.Clause.{Query, new_builder, add_must, add_should, add_must_not, build}
use go_search.Query.Match.{match, satisfies, match-eq-satisfies}
use go_search.Query.Phrase.{phrase_match, At, Follows, phrase_match_iff}

abbrev query : Query ℕ
unfolding build add_must add_should add_must_not
query = build (
    add_must_not (codes "f") (codes "z")
      (add_should (codes "f") (codes "y") (add_must (codes "f") (codes "x") (new_builder ℕ))))

abbrev doc : Map Posting
doc =
    (codes "f:x", record { doc_id = codes "d"; frequency = 1; positions = 0 ∷ [] })
    ∷ (codes "f:y", record { doc_id = codes "d"; frequency = 2; positions = 1 ∷ 4 ∷ [] })
    ∷ []

match-eq-satisfies_example : match query doc ≡ satisfies query.clauses doc
match-eq-satisfies_example = match-eq-satisfies query doc

phrase_match_iff_example :
    (phrase_match (codes "f:x" ∷ codes "f:y" ∷ []) doc ≡ true)
    ↔ ((p : ℕ) × At doc (codes "f:x") p × Follows doc (codes "f:y" ∷ []) (p + 1))
phrase_match_iff_example = phrase_match_iff (codes "f:x") (codes "f:y" ∷ []) doc
