-- ===== src/Index/FieldIndex.antt =====
-- index/field_index.go: per field a column of entries, sorted by `Sort`. Positions are naturals: `hi`
-- is one more than the `right` of the source. `strconv.ParseFloat` is an argument.
pub mod Ranges
pub mod Values
use go_search.Base.{
  ℕ, zero, suc, ◌+◌, ◌-◌, ◌/◌, Bool, true, false, ◌&&◌, ◌||◌, not, Option, none, some, List, [],
  ◌∷◌, ◌++◌, map, ltb, leb, ◌==◌, if◌then◌else◌, is_some, length, take, drop, get_elem?, Str, same,
  keep,
}
use go_search.Base.Map.{Map, lookup, lookup_or, insert, delete, has, StrSet}
use go_search.Base.Float.{Float64}
use go_search.Index.KdTree.{Sorting}

pub record FieldEntry (F : Type 0) : Type 0 where
  pub value : Str
  pub num_val : F
  pub doc_id : Str

pub record FieldIndex (F : Type 0) : Type 0 where
  pub entries : Map (List (FieldEntry F))
  pub deleted : StrSet

abbrev pub new_field_index : (F : Type 0) → FieldIndex F
new_field_index F = record { entries = []; deleted = [] }

-- `strings.Compare(a, b) < 0`
unfoldable pub str_less : Str → Str → Bool
str_less [] [] = false
str_less [] (c ∷ t) = true
str_less (c ∷ s) [] = false
str_less (c ∷ s) (e ∷ t) = let rest = str_less s t in ltb c e || (c == e && rest)

abbrev pub is_live : {F : Type 0} → StrSet → FieldEntry F → Bool
is_live deleted entry = not (has entry.doc_id deleted)

unfoldable pub delete_field : {F : Type 0} → Str → FieldIndex F → FieldIndex F
delete_field doc_id fi = record fi { deleted = insert doc_id tt fi.deleted }

unfoldable pub compact_columns :
    {F : Type 0} → StrSet → Map (List (FieldEntry F)) → Map (List (FieldEntry F))
compact_columns deleted [] = []
compact_columns deleted ((field, entries) ∷ columns) =
    (field, keep (is_live deleted) entries) ∷ compact_columns deleted columns

-- `Compact`, when no other one runs.
unfoldable pub compact_fields : {F : Type 0} → FieldIndex F → FieldIndex F
unfolding compact_columns
compact_fields fi = record fi { entries = compact_columns fi.deleted fi.entries }

-- The place behind the first entry of the document, or 0; `i` counts what is passed.
unfoldable pub start_from : {F : Type 0} → Str → ℕ → List (FieldEntry F) → ℕ
start_from after i [] = 0
start_from after i (entry ∷ entries) =
    let rest = start_from after (i + 1) entries in if same entry.doc_id after then i + 1 else rest

abbrev pub start_index : {F : Type 0} → Option Str → List (FieldEntry F) → ℕ
start_index none entries = 0
start_index (some after) entries = start_from after 0 entries

abbrev pub backwards {ℓ} : {A : Type ℓ} → List A → List A
backwards [] = []
backwards (x ∷ xs) = backwards xs ++ (x ∷ [])

-- `SortValues`
unfoldable pub sort_values :
    {F : Type 0} → Str → Bool → Option Str → FieldIndex F → List (FieldEntry F)
unfolding start_from
sort_values field desc after fi =
    let entries = lookup_or [] field fi.entries in
    let page = drop (start_index after entries) entries in
    keep (is_live fi.deleted) (if desc then backwards page else page)

module _ (fl : Float64) where
  unfoldable pub add_field :
      (Str → Option fl.F) → Str → Str → Str → Bool → FieldIndex fl.F → FieldIndex fl.F
  add_field parse_float field doc_id raw_value is_numeric fi =
      let num_val =
        if is_numeric
        then elim (parse_float raw_value) [ none ↦ fl.zero | some v ↦ v ]
        else fl.zero in
      record {
        deleted = delete doc_id fi.deleted;
        entries =
            insert field
              (lookup_or [] field fi.entries
                ++ (record { value = raw_value; num_val = num_val; doc_id = doc_id } ∷ []))
              fi.entries;
      }

  abbrev pub is_nonzero : fl.F → Bool
  is_nonzero v = fl.lt v fl.zero || fl.lt fl.zero v

  unfoldable pub sort_less : FieldEntry fl.F → FieldEntry fl.F → Bool
  unfolding str_less
  sort_less a b =
      if is_nonzero a.num_val && is_nonzero b.num_val
      then fl.lt a.num_val b.num_val
      else str_less a.value b.value

  unfoldable pub sort_columns :
      Sorting → Map (List (FieldEntry fl.F)) → Map (List (FieldEntry fl.F))
  unfolding sort_less
  sort_columns sorting [] = []
  sort_columns sorting ((field, entries) ∷ columns) =
      (field, sorting.slice sort_less entries) ∷ sort_columns sorting columns

  unfoldable pub sort_fields : Sorting → FieldIndex fl.F → FieldIndex fl.F
  unfolding sort_columns
  sort_fields sorting fi = record fi { entries = sort_columns sorting fi.entries }

  -- The tests of the two loops of `Range`.
  abbrev pub is_below : Option fl.F → Option fl.F → FieldEntry fl.F → Bool
  is_below gte gt entry =
      elim gte [ none ↦ false | some b ↦ fl.lt entry.num_val b ]
      || elim gt [ none ↦ false | some b ↦ not (fl.lt b entry.num_val) ]

  abbrev pub is_above : Option fl.F → Option fl.F → FieldEntry fl.F → Bool
  is_above lte lt entry =
      elim lte [ none ↦ false | some b ↦ fl.lt b entry.num_val ]
      || elim lt [ none ↦ false | some b ↦ not (fl.lt entry.num_val b) ]

  -- Either loop: on to the right half where the test says so. `none` is an index out of range.
  unfoldable pub bisect :
      ℕ → (FieldEntry fl.F → Bool) → List (FieldEntry fl.F) → ℕ → ℕ → Option (ℕ × ℕ)
  bisect zero goes_right entries left hi = some (left, hi)
  bisect (suc fuel) goes_right entries left hi =
      let mid = (left + (hi - 1)) / 2 in
      if ltb left hi
      then elim (get_elem? entries mid) [
        | none ↦ none
        | some entry ↦
            bisect fuel goes_right entries (if goes_right entry then mid + 1 else left)
              (if goes_right entry then hi else mid)
      ]
      else some (left, hi)

  abbrev pub bisect_if :
      Bool → (FieldEntry fl.F → Bool) → List (FieldEntry fl.F) → ℕ × ℕ → Option (ℕ × ℕ)
  bisect_if true goes_right entries (left, hi) =
      bisect (suc (length entries)) goes_right entries left hi
  bisect_if false goes_right entries (left, hi) = some (left, hi)

  -- `entries[left : right+1]`, less the deleted.
  unfoldable pub collect_ids : StrSet → List (FieldEntry fl.F) → ℕ × ℕ → Option (List Str)
  collect_ids deleted entries (left, hi) =
      if leb left hi && leb hi (length entries)
      then some (map (λ e. e.doc_id) (keep (is_live deleted) (drop left (take hi entries))))
      else none

  unfoldable pub range_ids :
      Str
      → Option fl.F
      → Option fl.F
      → Option fl.F
      → Option fl.F
      → FieldIndex fl.F
      → Option (List Str)
  unfolding bisect collect_ids
  range_ids field gte lte gt lt fi =
      let entries = lookup_or [] field fi.entries in
      elim (bisect_if (is_some gte || is_some gt) (is_below gte gt) entries (0, length entries)) [
        | none ↦ none
        | some ends ↦
            elim (bisect_if (is_some lte || is_some lt) (λ e. not (is_above lte lt e)) entries
              ends) [ none ↦ none | some ends' ↦ collect_ids fi.deleted entries ends' ]
      ]
