-- ===== src/Tests/TermSearches.antt =====
-- The searches of engine/search.go by terms, and analysis/fuzzy.go, on concrete inputs.
use go_search.Base.{
  ◌≡◌, refl, Bool, ◌&&◌, List, [], ◌∷◌, codes, Str, same, is_some, some, none, if◌then◌else◌,
}
use go_search.Analysis.EditDistance.{edit_distance}
use go_search.Engine.Search.Hits.{has_hit}
use go_search.Engine.TermSearch.{fuzzy_search, wildcard_search, near_terms}
use go_search.Engine.TermSearch.Parts.{all_have_colon}
use go_search.Engine.TermSearch.Selected.{near_posted, matching_posted, has_hit-term_searches}
use mathlib.Core.Option
use go_search.Tests.Searches.{two_docs, insertion-KeepsHits}
use go_search.Tests.Sorters.{insertion}

kitten_sitting : edit_distance (codes "kitten") (codes "sitting") ≡ 3
unfolding edit_distance
kitten_sitting = refl

abbrev two_terms : List Str
two_terms = codes "t:car" ∷ codes "t:red" ∷ []

abbrev is_red : Str → Bool
is_red text = same text (codes "red")

near_cat : near_terms (codes "t") (codes "cat") 1 two_terms ≡ some (codes "t:car" ∷ [])
unfolding near_terms same
near_cat = refl

-- A term without a colon stops the search, and one with two colons is cut off.
no_colon : near_terms (codes "t") (codes "cat") 1 (codes "t:car" ∷ codes "cat" ∷ []) ≡ none
unfolding near_terms same
no_colon = refl

cut_off : near_terms (codes "t") (codes "cat") 1 (codes "t:car:b" ∷ []) ≡ some (codes "t:car" ∷ [])
unfolding near_terms same
cut_off = refl

has_hit-term_searches_example :
    (Option.map
        (has_hit (codes "2"))
        (fuzzy_search two_docs insertion two_terms (codes "t") (codes "cat") 1 0)
      ≡ (if all_have_colon two_terms
          then some (
              near_posted two_docs (codes "2") (codes "t") (codes "cat") 1 two_terms
              && is_some (two_docs.stored (codes "2")))
          else none))
    × (has_hit (codes "2") (wildcard_search two_docs insertion two_terms (codes "t") is_red 0) ≡ (
        matching_posted two_docs (codes "2") (codes "t") is_red two_terms
        && is_some (two_docs.stored (codes "2"))))
has_hit-term_searches_example =
    has_hit-term_searches two_docs insertion (codes "2") two_terms (codes "t") (codes "cat") 1
      is_red insertion-KeepsHits
