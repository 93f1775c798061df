-- ===== src/Engine/Paging/Pages.antt =====
-- How the pages of engine/search.go follow each other.
use go_search.Base.{◌≡◌, false, List, [], ◌∷◌, same, All}
use go_search.Engine.Document.{Result}

module _ {F : Type 0} where
  -- No two results have the same ID.
  abbrev pub Distinct : List (Result F) → Type 0
  Distinct [] = Unit
  Distinct (r ∷ results) = All (λ x. same r.id x.id ≡ false) results × Distinct results
