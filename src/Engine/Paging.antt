-- ===== src/Engine/Paging.antt =====
-- engine/search.go: the options of a search, and `applyPagination`.
pub mod Pages
use go_search.Base.{
  ℕ, zero, suc, ◌+◌, Bool, true, false, ◌&&◌, ◌||◌, not, Option, none, some, List, [], ◌∷◌, ltb,
  if◌then◌else◌, length, take, drop, Str, same, is_some,
}
use go_search.Engine.Document.{Result, field_value}

pub data SortOrder : Type 0 where
  asc desc : SortOrder

pub record SortClause : Type 0 where
  pub field : Str
  pub order : SortOrder

pub record SearchCursor : Type 0 where
  pub sort_value : Str
  pub doc_id : Str

pub record SearchOptions : Type 0 where
  pub sort : List SortClause
  pub from : ℕ
  pub size : ℕ
  pub search_after : Option SearchCursor

pub record SearchResult (F : Type 0) : Type 0 where
  pub hits : List (Result F)
  pub next_cursor : Option SearchCursor

-- What is behind the result with this ID; nothing if there is none.
unfoldable pub cut_after : {F : Type 0} → Str → List (Result F) → List (Result F)
cut_after id [] = []
cut_after id (r ∷ results) =
    let rest = cut_after id results in if same r.id id then results else rest

-- At most `n` results; 0 is no limit.
abbrev pub limit_to : {F : Type 0} → ℕ → List (Result F) → List (Result F)
limit_to n results = if ltb 0 n && ltb n (length results) then take n results else results

-- The part of the results that the options ask for; `none` is the empty answer without a cursor.
unfoldable pub page :
    {F : Type 0} → Option SearchOptions → List (Result F) → Option (List (Result F))
unfolding cut_after
page none results = some results
page (some opts) results = elim opts.search_after [
  | some cursor ↦ some (limit_to opts.size (cut_after cursor.doc_id results))
  | none ↦
      let size = length results in
      let end =
        if ltb 0 opts.size && ltb (opts.from + opts.size) size
        then opts.from + opts.size
        else size in
      if ltb 0 opts.from || ltb 0 opts.size
      then (if ltb size opts.from then none else some (drop opts.from (take end results)))
      else some results
]

abbrev pub last_of {ℓ} : {A : Type ℓ} → List A → Option A
last_of [] = none
last_of (x ∷ []) = some x
last_of (x ∷ y ∷ xs) = last_of (y ∷ xs)

abbrev pub cursor_of : {F : Type 0} → Option SearchOptions → List (Result F) → Option SearchCursor
cursor_of none hits = none
cursor_of (some opts) hits = elim opts.sort [
  | [] ↦ none
  | sc ∷ more ↦ elim (last_of hits) [
    | none ↦ none
    | some r ↦ some (record { sort_value = field_value sc.field r.fields; doc_id = r.id })
  ]
]

unfoldable pub apply_pagination :
    {F : Type 0} → List (Result F) → ℕ → Option SearchOptions → SearchResult F
unfolding page
apply_pagination results top_k opts = elim (page opts results) [
  | none ↦ record { hits = []; next_cursor = none }
  | some part ↦
      let hits = limit_to top_k part in record { hits = hits; next_cursor = cursor_of opts hits }
]

-- The options of a page by offset, and of the page behind a cursor.
abbrev pub page_at : List SortClause → ℕ → ℕ → SearchOptions
page_at sort from size = record { sort = sort; from = from; size = size; search_after = none }

abbrev pub page_after : List SortClause → SearchCursor → ℕ → SearchOptions
page_after sort cursor size = record {
  sort = sort;
  from = 0;
  size = size;
  search_after = some cursor;
}
