-- ===== src/Engine/Search/Narrowed.antt =====
-- The candidates of engine/search.go that range queries add or leave.
use go_search.Base.{
  ◌≡◌, refl, ap, ◌∙◌, not, ◌||◌, none, some, List, [], ◌∷◌, if◌then◌else◌, Str, same, same_iff,
  keep, arith, inl, inr, Bool-cases,
}
use go_search.Base.Map.{Map, lookup, insert, has, lookup-insert, Unique, insert-Unique, StrSet}
use go_search.Index.Posting.{Posting}
use go_search.Engine.Filters.{is_one_of}
use go_search.Engine.Search.{add_ids, id_set, keep_docs, is_empty}

pub has-id_set :
    (id : Str) (ids : List Str) (set : StrSet)
    → has id (id_set ids set) ≡ (is_one_of id ids || has id set)
unfolding id_set
has-id_set id [] set = refl
has-id_set id (i ∷ ids) set =
    has-id_set id ids (insert i tt set)
    ∙ rw (lookup-insert i id tt set) (ground (arith, same_iff i id, same_iff id i))

pub lookup-add_ids :
    (id : Str) (ids : List Str) (docs : Map (Map Posting))
    → lookup id (add_ids ids docs) ≡ (if is_one_of id ids then some [] else lookup id docs)
unfolding add_ids
lookup-add_ids id [] docs = refl
lookup-add_ids id (i ∷ ids) docs =
    lookup-add_ids id ids (insert i [] docs)
    ∙ rw (lookup-insert i id [] docs) (ground (arith, same_iff i id, same_iff id i))

pub add_ids-Unique :
    (ids : List Str) (docs : Map (Map Posting)) → Unique docs → Unique (add_ids ids docs)
unfolding add_ids
add_ids-Unique [] docs u = u
add_ids-Unique (i ∷ ids) docs u = add_ids-Unique ids (insert i [] docs) (insert-Unique i [] docs u)

pub lookup-keep_docs :
    (id : Str) (set : StrSet) (docs : Map (Map Posting))
    → lookup id (keep_docs set docs) ≡ (if has id set then lookup id docs else none)
unfolding lookup keep
lookup-keep_docs id set [] = ground arith
lookup-keep_docs id set ((i, m) ∷ docs) = elim (Bool-cases (same i id)) [
  | inl e ↦
      let eq : has i set ≡ has id set = ap (λ j. has j set) ((same_iff i id).0 e) in
      elim (Bool-cases (has id set)) [
        | inl h ↦ rw (eq, h, e)
        | inr h ↦ rw (eq, h) (lookup-keep_docs id set docs ∙ rw h)
      ]
  | inr e ↦ elim (Bool-cases (has i set)) [
    | inl h ↦ rw (h, e) (lookup-keep_docs id set docs)
    | inr h ↦ rw (h, e) (lookup-keep_docs id set docs)
  ]
]

pub keep_docs-Unique :
    (set : StrSet) (docs : Map (Map Posting)) → Unique docs → Unique (keep_docs set docs)
unfolding keep
keep_docs-Unique set [] u = tt
keep_docs-Unique set ((i, m) ∷ docs) (n, u) = elim (Bool-cases (has i set)) [
  | inl h ↦ rw h (lookup-keep_docs i set docs ∙ rw (h, n), keep_docs-Unique set docs u)
  | inr h ↦ rw h (keep_docs-Unique set docs u)
]

pub keep_some :
    (set : StrSet) (docs : Map (Map Posting))
    → (if not (is_empty docs) then keep_docs set docs else docs) ≡ keep_docs set docs
unfolding keep
keep_some set [] = refl
keep_some set (kv ∷ docs) = refl
