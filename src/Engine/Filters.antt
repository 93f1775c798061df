-- ===== src/Engine/Filters.antt =====
-- The filters of engine/search.go, and the bounds of its range clauses. `regexp.Compile` is an argument.
use go_search.Base.{
  Bool, true, false, ◌||◌, Option, none, some, List, [], ◌∷◌, map, if◌then◌else◌, Str, same,
}
use go_search.Base.Map.{lookup}
use go_search.Query.Clause.{RangeClause, TermsClause, RegexClause}
use go_search.Index.KdTree.{FieldBound}
use go_search.Engine.Document.{Document}

unfoldable pub ranges_to_field_bounds : {F : Type 0} → List (RangeClause F) → List (FieldBound F)
ranges_to_field_bounds =
    map (λ rc. record { field = rc.field; gte = rc.gte; lte = rc.lte; gt = rc.gt; lt = rc.lt })

abbrev pub is_one_of : Str → List Str → Bool
is_one_of value [] = false
is_one_of value (v ∷ values) = same value v || is_one_of value values

unfoldable pub pass_terms_filters : {F : Type 0} → Document F → List TermsClause → Bool
pass_terms_filters doc [] = true
pass_terms_filters doc (tc ∷ terms) =
    let rest = pass_terms_filters doc terms in
    elim (lookup tc.field doc.fields) [
      | none ↦ false
      | some field ↦ if is_one_of field.value tc.values then rest else false
    ]

unfoldable pub pass_regex_filters :
    {F : Type 0} → (Str → Option (Str → Bool)) → Document F → List RegexClause → Bool
pass_regex_filters compile doc [] = true
pass_regex_filters compile doc (rc ∷ regexes) =
    let rest = pass_regex_filters compile doc regexes in
    elim (lookup rc.field doc.fields) [
      | none ↦ false
      | some field ↦ elim (compile rc.regex) [
        | none ↦ false
        | some matches ↦ if matches field.value then rest else false
      ]
    ]
