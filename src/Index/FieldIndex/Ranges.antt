-- ===== src/Index/FieldIndex/Ranges.antt =====
-- What `Range` of index/field_index.go returns.
use go_search.Base.{
  get_elem_of_lt, ℕ, zero, suc, ◌+◌, ◌-◌, ◌/◌, ◌≤◌, ◌<◌, ◌≡◌, refl, Bool, true, false, ◌||◌, not,
  Option, none, some, List, [], ◌∷◌, map, ltb, if◌then◌else◌, is_some, length, take, drop,
  take_of_le, Str, keep, arith, inl, inr, Bool-cases,
}
use go_search.Base.Map.{lookup_or, StrSet}
use go_search.Base.Float.{Float64}
use go_search.Index.FieldIndex.{
  FieldEntry, FieldIndex, is_live, is_below, is_above, bisect, bisect_if, collect_ids, range_ids,
}

drop-take : {A : Type 0} (n : ℕ) (xs : List A) → drop n (take n xs) ≡ []
drop-take zero xs = refl
drop-take (suc n) [] = refl
drop-take (suc n) (x ∷ xs) = drop-take n xs

module _ (fl : Float64) where
  -- The two ends of a search meet, wherever the test sends it.
  bisect-meets :
      (fuel : ℕ) (p : FieldEntry fl.F → Bool) (entries : List (FieldEntry fl.F)) (left hi : ℕ)
      → left ≤ hi
      → hi ≤ length entries
      → hi < left + fuel
      → (k : ℕ) × (bisect fl fuel p entries left hi ≡ some (k, k)) × (k ≤ length entries)
  unfolding bisect
  bisect-meets zero p entries left hi h b f = absurd (omega arith)
  bisect-meets (suc fuel) p entries left hi h b f = elim (Bool-cases (ltb left hi)) [
    | inr e ↦ (hi, ground arith, b)
    | inl e ↦
        let mid = (left + (hi - 1)) / 2 in
        let lt : left < hi = ground arith in
        let (entry, g) = get_elem_of_lt entries mid (omega arith) in
        elim (Bool-cases (p entry)) [
          | inl q ↦
              rw (e, g)
                (rw q (bisect-meets fuel p entries (mid + 1) hi (omega arith) b (omega arith)))
          | inr q ↦
              rw (e, g)
                (rw q
                  (bisect-meets fuel p entries left mid (omega arith) (omega arith) (omega arith)))
        ]
  ]

  bisect_if-meets :
      (b : Bool) (p : FieldEntry fl.F → Bool) (entries : List (FieldEntry fl.F)) (k : ℕ)
      → bisect_if fl b p entries (k, k) ≡ some (k, k)
  unfolding bisect
  bisect_if-meets true p entries k = ground arith
  bisect_if-meets false p entries k = refl

  collect_ids-empty :
      (deleted : StrSet) (entries : List (FieldEntry fl.F)) (k : ℕ)
      → k ≤ length entries
      → collect_ids fl deleted entries (k, k) ≡ some []
  unfolding collect_ids keep
  collect_ids-empty deleted entries k h = rw (drop-take k entries) (ground arith)

  collect_ids-all :
      (deleted : StrSet) (entries : List (FieldEntry fl.F))
      → collect_ids fl deleted entries (0, length entries)
        ≡ some (map (λ e. e.doc_id) (keep (is_live deleted) entries))
  unfolding collect_ids
  collect_ids-all deleted entries =
      rw (take_of_le (length entries) entries (omega arith)) (ground arith)

  -- The two searches of a range, given which of them are made.
  abbrev searches :
      Bool
      → Bool
      → (FieldEntry fl.F → Bool)
      → (FieldEntry fl.F → Bool)
      → StrSet
      → List (FieldEntry fl.F)
      → Option (List Str)
  searches b b' p q deleted entries = elim (bisect_if fl b p entries (0, length entries)) [
    | none ↦ none
    | some ends ↦ elim (bisect_if fl b' q entries ends) [
      | none ↦ none
      | some ends' ↦ collect_ids fl deleted entries ends'
    ]
  ]

  searches-eq :
      (b b' : Bool) (p q : FieldEntry fl.F → Bool) (deleted : StrSet)
      (entries : List (FieldEntry fl.F))
      → searches b b' p q deleted entries
        ≡ some (if b || b' then [] else map (λ e. e.doc_id) (keep (is_live deleted) entries))
  searches-eq true b' p q deleted entries =
      let (k, e, h) =
        bisect-meets (suc (length entries)) p entries 0 (length entries) (omega arith) (omega arith)
          (omega arith) in
      rw (e, searches) (rw (bisect_if-meets b' q entries k) (collect_ids-empty deleted entries k h))
  searches-eq false true p q deleted entries =
      let (k, e, h) =
        bisect-meets (suc (length entries)) q entries 0 (length entries) (omega arith) (omega arith)
          (omega arith) in
      rw (e, searches) (collect_ids-empty deleted entries k h)
  searches-eq false false p q deleted entries = collect_ids-all deleted entries

  -- `Range` of the field index never runs out of its slice; with no bound it returns the live
  -- entries of the column in order, and with any bound given it returns no document at all.
  pub range_ids-eq :
      (field : Str) (gte lte gt lt : Option fl.F) (fi : FieldIndex fl.F)
      → range_ids fl field gte lte gt lt fi
        ≡ some (
            if (is_some gte || is_some gt) || (is_some lte || is_some lt)
            then []
            else map (λ e. e.doc_id) (keep (is_live fi.deleted) (lookup_or [] field fi.entries)))
  unfolding range_ids
  range_ids-eq field gte lte gt lt fi =
      searches-eq (is_some gte || is_some gt) (is_some lte || is_some lt) (is_below fl gte gt)
        (λ e. not (is_above fl lte lt e)) fi.deleted (lookup_or [] field fi.entries)
