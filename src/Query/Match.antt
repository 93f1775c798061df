-- ===== src/Query/Match.antt =====
-- query/match.go: whether the postings of one document satisfy a boolean query.
use go_search.Base.{
  ◌≡◌, refl, Bool, true, false, not, ◌&&◌, ◌||◌, Option, none, some, List, [], ◌∷◌, ◌++◌, Str,
  arith, if◌then◌else◌,
}
use go_search.Base.Fields.{fields}
use go_search.Base.Map.{Map, has}
use go_search.Index.Posting.{Posting}
use go_search.Query.Clause.{ClauseType, must, should, must_not, phrase, Clause, Query}
use go_search.Query.Phrase.{phrase_match}

-- `field + ":" + term`
abbrev pub index_key : Str → Str → Str
index_key field term = field ++ (b':' ∷ term)

abbrev pub key_of : Clause → Str
key_of c = index_key c.field c.term

-- The three flags of the loop.
pub record Flags : Type 0 where
  pub has_should : Bool
  pub any_should_matched : Bool
  pub has_must : Bool

-- One clause: `none` is `return false`.
unfoldable pub match_clause : ClauseType → Clause → Map Posting → Flags → Option Flags
match_clause must c doc fl =
    if has (key_of c) doc then some (record fl { has_must = true }) else none
match_clause should c doc fl =
    if has (key_of c) doc
    then some (record fl { has_should = true; any_should_matched = true })
    else some (record fl { has_should = true })
match_clause must_not c doc fl = if has (key_of c) doc then none else some fl
match_clause phrase c doc fl = if phrase_match (fields c.term) doc then some fl else none
match_clause _ c doc fl = some fl

unfoldable pub match_flags : Flags → Bool
match_flags fl =
    if not fl.has_must && (fl.has_should && not fl.any_should_matched) then false else true

unfoldable pub match_from : List Clause → Map Posting → Flags → Bool
unfolding match_clause match_flags
match_from [] doc fl = match_flags fl
match_from (c ∷ clauses) doc fl = elim (match_clause c.type c doc fl) [
  | none ↦ false
  | some fl' ↦ match_from clauses doc fl'
]

abbrev pub no_flags : Flags
no_flags = record { has_should = false; any_should_matched = false; has_must = false }

unfoldable pub match : {F : Type 0} → Query F → Map Posting → Bool
unfolding match_from
match q doc = match_from q.clauses doc no_flags

-- The reference: what one clause demands by itself, and what the should clauses add.
abbrev pub any : (Clause → Bool) → List Clause → Bool
any p [] = false
any p (c ∷ cs) = p c || any p cs

abbrev pub every : (Clause → Bool) → List Clause → Bool
every p [] = true
every p (c ∷ cs) = p c && every p cs

abbrev pub passes : Map Posting → ClauseType → Clause → Bool
passes doc must c = has (key_of c) doc
passes doc must_not c = not (has (key_of c) doc)
passes doc phrase c = phrase_match (fields c.term) doc
passes doc _ c = true

abbrev pub is_must : ClauseType → Bool
is_must must = true
is_must _ = false

abbrev pub is_should : ClauseType → Bool
is_should should = true
is_should _ = false

-- Every clause that excludes is met, and if there are should clauses and no must clause, one of the
-- should clauses is in the document.
abbrev pub satisfies : List Clause → Map Posting → Bool
satisfies cs doc =
    every (λ c. passes doc c.type c) cs
    && (any (λ c. is_must c.type) cs
        || (not (any (λ c. is_should c.type) cs)
            || any (λ c. is_should c.type && has (key_of c) doc) cs))

-- What a loop that starts with these flags returns.
abbrev satisfies_from : List Clause → Map Posting → Flags → Bool
satisfies_from cs doc fl =
    every (λ c. passes doc c.type c) cs
    && ((fl.has_must || any (λ c. is_must c.type) cs)
        || (not (fl.has_should || any (λ c. is_should c.type) cs)
            || (fl.any_should_matched || any (λ c. is_should c.type && has (key_of c) doc) cs)))

match_from-step :
    (t : ClauseType) (c : Clause) (cs : List Clause) (doc : Map Posting) (fl : Flags)
    → c.type ≡ t
    → ((fl' : Flags) → match_from cs doc fl' ≡ satisfies_from cs doc fl')
    → match_from (c ∷ cs) doc fl ≡ satisfies_from (c ∷ cs) doc fl
unfolding match_from
match_from-step must c cs doc fl e ih = ground (arith, e, ih (record fl { has_must = true }))
match_from-step should c cs doc fl e ih = ground (
  arith,
  e,
  ih (record fl { has_should = true; any_should_matched = true }),
  ih (record fl { has_should = true }),
)
match_from-step _ c cs doc fl e ih = ground (arith, e, ih fl)

match_from-eq :
    (cs : List Clause) (doc : Map Posting) (fl : Flags)
    → match_from cs doc fl ≡ satisfies_from cs doc fl
unfolding match_from
match_from-eq [] doc fl = ground arith
match_from-eq (c ∷ cs) doc fl =
    match_from-step c.type c cs doc fl refl (λ fl'. match_from-eq cs doc fl')

-- `Match` is true exactly when every must and phrase clause is met, no must-not clause is, and,
-- where there are should clauses and no must clause, one should clause is met: the early returns
-- and the flags of its loop decide just this, whatever the order of the clauses.
pub match-eq-satisfies :
    {F : Type 0} (q : Query F) (doc : Map Posting) → match q doc ≡ satisfies q.clauses doc
unfolding match
match-eq-satisfies q doc = match_from-eq q.clauses doc no_flags
