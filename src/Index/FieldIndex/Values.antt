-- ===== src/Index/FieldIndex/Values.antt =====
-- What `SortValues` of index/field_index.go returns, and what `Compact` leaves of it.
use go_search.Base.{
  ◌≡◌, refl, sym, ap, ◌∙◌, Bool, true, false, none, some, List, [], ◌∷◌, ◌++◌, if◌then◌else◌, drop,
  Str, same, keep, keep-append, inl, inr, Bool-cases, append-nil, ℕ, zero, suc, ◌+◌, not, arith,
}
use mathlib.Core.List.{reverse, reverse-cons}
use go_search.Base.Map.{Map, lookup, lookup_or, has, StrSet}
use go_search.Index.FieldIndex.{
  FieldEntry, FieldIndex, is_live, backwards, start_from, sort_values, compact_columns,
  compact_fields,
}

backwards-reverse : {A : Type 0} (xs : List A) → backwards xs ≡ reverse xs
backwards-reverse [] = refl
backwards-reverse (x ∷ xs) =
    ap (λ (t : List _). t ++ (x ∷ [])) (backwards-reverse xs) ∙ sym (reverse-cons x xs)

drop_next :
    {A : Type 0} (i : ℕ) (all : List A) (x : A) (xs : List A)
    → drop i all ≡ x ∷ xs
    → drop (i + 1) all ≡ xs
drop_next zero [] x xs h = absurd (cc)
drop_next zero (y ∷ all) x xs h = ap (drop 1) h
drop_next (suc i) [] x xs h = absurd (cc)
drop_next (suc i) (y ∷ all) x xs h =
    ap (λ n. drop n (y ∷ all)) {x = suc i + 1} {y = suc (i + 1)} (omega arith)
    ∙ drop_next i all x xs h

keep-keep : {A : Type 0} (p : A → Bool) (xs : List A) → keep p (keep p xs) ≡ keep p xs
unfolding keep
keep-keep p [] = refl
keep-keep p (x ∷ xs) = elim (Bool-cases (p x)) [
  | inl e ↦ rw e (rw e (ap (λ (t : List _). x ∷ t) (keep-keep p xs)))
  | inr e ↦ rw e (keep-keep p xs)
]

keep-backwards :
    {A : Type 0} (p : A → Bool) (xs : List A) → keep p (backwards xs) ≡ backwards (keep p xs)
unfolding keep
keep-backwards p [] = refl
keep-backwards p (x ∷ xs) = keep-append p (backwards xs) (x ∷ []) ∙ elim (Bool-cases (p x)) [
  | inl e ↦ rw e (ap (λ (t : List _). t ++ (x ∷ [])) (keep-backwards p xs))
  | inr e ↦ rw e (append-nil (keep p (backwards xs)) ∙ keep-backwards p xs)
]

module _ {F : Type 0} where
  column-compact :
      (deleted : StrSet) (columns : Map (List (FieldEntry F))) (field : Str)
      → lookup_or [] field (compact_columns deleted columns)
        ≡ keep (is_live deleted) (lookup_or [] field columns)
  unfolding compact_columns lookup keep
  column-compact deleted [] field = refl
  column-compact deleted ((f, entries) ∷ columns) field = elim (Bool-cases (same f field)) [
    | inl e ↦ rw e
    | inr e ↦ rw e (column-compact deleted columns field)
  ]

  -- `Compact` of the field index does not change what `SortValues` without a cursor returns, in
  -- either order.
  pub sort_values-compact :
      (fi : FieldIndex F) (field : Str) (desc : Bool)
      → sort_values field desc none (compact_fields fi) ≡ sort_values field desc none fi
  unfolding sort_values compact_fields
  sort_values-compact fi field true = rw (column-compact fi.deleted fi.entries field) (
      keep-backwards (is_live fi.deleted)
        (keep (is_live fi.deleted) (lookup_or [] field fi.entries))
      ∙ ap backwards (keep-keep (is_live fi.deleted) (lookup_or [] field fi.entries))
      ∙ sym (keep-backwards (is_live fi.deleted) (lookup_or [] field fi.entries)))
  sort_values-compact fi field false =
      rw (column-compact fi.deleted fi.entries field)
        (keep-keep (is_live fi.deleted) (lookup_or [] field fi.entries))

  -- The entries behind the first one of the document, and all of them where it has none.
  abbrev pub behind : Str → List (FieldEntry F) → List (FieldEntry F) → List (FieldEntry F)
  behind after all [] = all
  behind after all (entry ∷ entries) =
      if same entry.doc_id after then entries else behind after all entries

  start_from-behind :
      (after : Str) (i : ℕ) (all entries : List (FieldEntry F))
      → drop i all ≡ entries
      → drop (start_from after i entries) all ≡ behind after all entries
  unfolding start_from
  start_from-behind after i all [] h = refl
  start_from-behind after i all (entry ∷ entries) h =
      let next : drop (i + 1) all ≡ entries = drop_next i all entry entries h in
      elim (Bool-cases (same entry.doc_id after)) [
        | inl e ↦ rw e next
        | inr e ↦ rw e (start_from-behind after (i + 1) all entries next)
      ]

  -- `SortValues` behind a cursor returns those entries of the column that stand behind the first
  -- one of the cursor's document, or the whole column where it has none, less the entries of
  -- deleted documents; in descending order it returns the same ones backwards.
  pub sort_values-after :
      (fi : FieldIndex F) (field after : Str) (desc : Bool)
      → sort_values field desc (some after) fi
        ≡ keep
            (λ en. not (has en.doc_id fi.deleted))
            (let entries = lookup_or [] field fi.entries in
              let page = behind after entries entries in if desc then reverse page else page)
  unfolding sort_values
  sort_values-after fi field after desc =
      let entries = lookup_or [] field fi.entries in
      let page : drop (start_from after 0 entries) entries ≡ behind after entries entries =
        start_from-behind after 0 entries entries refl in
      rw (page, backwards-reverse (behind after entries entries))
