-- ===== src/Tests/Sorters.antt =====
-- Insertion sort in place of package sort.
use go_search.Base.{Bool, true, false, not, ◌&&◌, List, [], ◌∷◌, ltb, if◌then◌else◌, Str}
use go_search.Index.KdTree.{Sorting}

unfoldable pub place {ℓ} : {A : Type ℓ} → (A → A → Bool) → A → List A → List A
place less x [] = x ∷ []
place less x (y ∷ ys) = let rest = place less x ys in if less y x then y ∷ rest else x ∷ (y ∷ ys)

unfoldable pub sort_items {ℓ} : {A : Type ℓ} → (A → A → Bool) → List A → List A
unfolding place
sort_items less [] = []
sort_items less (x ∷ xs) = place less x (sort_items less xs)

unfoldable pub str_less : Str → Str → Bool
str_less [] [] = false
str_less [] (c ∷ t) = true
str_less (c ∷ s) [] = false
str_less (c ∷ s) (e ∷ t) =
    let rest = str_less s t in if ltb c e then true else not (ltb e c) && rest

abbrev pub insertion : Sorting
insertion = record { slice = sort_items; stable = sort_items; strings = sort_items str_less }
