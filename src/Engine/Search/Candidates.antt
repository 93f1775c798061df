-- ===== src/Engine/Search/Candidates.antt =====
-- The candidates of engine/search.go against what the index reports for each clause.
use go_search.Base.{
  ◌≡◌, refl, sym, ap, ◌∙◌, Bool, true, false, not, ◌&&◌, ◌||◌, List, [], ◌∷◌, Str, same, same_iff,
  same_refl, arith, ◌++◌, append_assoc, inl, inr, Bool-cases, All,
}
use mathlib.Core.Path.{subst}
use go_search.Base.Map.{Map, lookup, lookup_or, insert, has, lookup-insert, Unique, insert-Unique}
use go_search.Index.Posting.{Posting}
use go_search.Query.Clause.{ClauseType, phrase, must, should, must_not, Clause}
use go_search.Query.Match.{any, every, key_of, is_must, is_should, passes, satisfies}
use go_search.Engine.Searcher.{Searcher}
use go_search.Engine.Search.{add_postings, add_clause, add_clauses}

-- Whether one of the postings is of the document.
abbrev pub posted : Str → List Posting → Bool
posted id [] = false
posted id (p ∷ postings) = same p.doc_id id || posted id postings

abbrev pub is_phrase : ClauseType → Bool
is_phrase phrase = true
is_phrase _ = false

-- Whether the candidates know the document, and whether they know it under the key.
abbrev pub knows : Str → Map (Map Posting) → Bool
knows id docs = has id docs

abbrev pub knows_key : Str → Str → Map (Map Posting) → Bool
knows_key id key docs = has key (lookup_or [] id docs)

add_one :
    (id k key : Str) (p : Posting) (docs : Map (Map Posting))
    → (knows id (insert p.doc_id (insert key p (lookup_or [] p.doc_id docs)) docs)
        ≡ (same p.doc_id id || knows id docs))
      × (knows_key id k (insert p.doc_id (insert key p (lookup_or [] p.doc_id docs)) docs)
          ≡ ((same p.doc_id id && same key k) || knows_key id k docs))
add_one id k key p docs = elim (Bool-cases (same p.doc_id id)) [
  | inl e ↦
      let eq : lookup p.doc_id docs ≡ lookup id docs =
        ap (λ i. lookup i docs) ((same_iff p.doc_id id).0 e) in
      (
        rw (lookup-insert p.doc_id id (insert key p (lookup_or [] p.doc_id docs)) docs, e),
        rw
            (
              lookup-insert p.doc_id id (insert key p (lookup_or [] p.doc_id docs)) docs,
              e,
              eq,
              lookup-insert key k p (lookup_or [] id docs),
            )
            (elim (Bool-cases (same key k)) [ inl f ↦ rw f | inr f ↦ rw f ]),
      )
  | inr e ↦ (
    rw (lookup-insert p.doc_id id (insert key p (lookup_or [] p.doc_id docs)) docs, e),
    rw (lookup-insert p.doc_id id (insert key p (lookup_or [] p.doc_id docs)) docs, e),
  )
]

pub knows-add_postings :
    (id key : Str) (ps : List Posting) (docs : Map (Map Posting))
    → knows id (add_postings key ps docs) ≡ (posted id ps || knows id docs)
unfolding add_postings
knows-add_postings id key [] docs = refl
knows-add_postings id key (p ∷ ps) docs =
    let m = insert p.doc_id (insert key p (lookup_or [] p.doc_id docs)) docs in
    knows-add_postings id key ps m ∙ rw ((add_one id key key p docs).0) (ground arith)

pub knows_key-add_postings :
    (id k key : Str) (ps : List Posting) (docs : Map (Map Posting))
    → knows_key id k (add_postings key ps docs)
      ≡ ((same key k && posted id ps) || knows_key id k docs)
unfolding add_postings
knows_key-add_postings id k key [] docs = ground arith
knows_key-add_postings id k key (p ∷ ps) docs =
    let m = insert p.doc_id (insert key p (lookup_or [] p.doc_id docs)) docs in
    knows_key-add_postings id k key ps m ∙ rw ((add_one id k key p docs).1) (ground arith)

add_postings-Unique :
    (key : Str) (ps : List Posting) (docs : Map (Map Posting))
    → Unique docs
    → Unique (add_postings key ps docs)
unfolding add_postings
add_postings-Unique key [] docs u = u
add_postings-Unique key (p ∷ ps) docs u =
    add_postings-Unique key ps _
      (insert-Unique p.doc_id (insert key p (lookup_or [] p.doc_id docs)) docs u)

module _ {F : Type 0} (s : Searcher F) where
  -- Whether the index reports the document for the key.
  abbrev pub reported : Str → Str → Bool
  reported id key = posted id (s.postings_of key)

  abbrev plain : Clause → Bool
  plain c = not (is_phrase c.type)

  add_clause-plain :
      (t : ClauseType) (c : Clause) (docs : Map (Map Posting))
      → not (is_phrase t) ≡ true
      → add_clause s t c docs ≡ add_postings (key_of c) (s.postings_of (key_of c)) docs
  unfolding add_clause
  add_clause-plain phrase c docs h = absurd (cc)
  add_clause-plain _ c docs h = refl

  pub knows-add_clauses :
      (id k : Str) (cs : List Clause) (docs : Map (Map Posting))
      → every plain cs ≡ true
      → (knows id (add_clauses s cs docs) ≡ (any (λ c. reported id (key_of c)) cs || knows id docs))
        × (knows_key id k (add_clauses s cs docs)
            ≡ ((any (λ c. same (key_of c) k) cs && reported id k) || knows_key id k docs))
  unfolding add_clauses
  knows-add_clauses id k [] docs h = (refl, refl)
  knows-add_clauses id k (c ∷ cs) docs h =
      let one : plain c ≡ true = ground (arith, h) in
      let more : every plain cs ≡ true = ground (arith, h) in
      let key = key_of c in
      let ps = s.postings_of key in
      let (a, b) = knows-add_clauses id k cs (add_postings key ps docs) more in
      let same_key : (same key k && posted id ps) ≡ (same key k && reported id k) =
        elim (Bool-cases (same key k)) [
          | inl e ↦ rw e (ap (reported id) ((same_iff key k).0 e))
          | inr e ↦ rw e
        ] in
      rw (add_clause-plain c.type c docs one) (
        a ∙ rw (knows-add_postings id key ps docs) (ground arith),
        b ∙ rw (knows_key-add_postings id k key ps docs, same_key) (ground arith),
      )

  pub add_clauses-Unique :
      (cs : List Clause) (docs : Map (Map Posting))
      → every plain cs ≡ true
      → Unique docs
      → Unique (add_clauses s cs docs)
  unfolding add_clauses
  add_clauses-Unique [] docs h u = u
  add_clauses-Unique (c ∷ cs) docs h u =
      let one : plain c ≡ true = ground (arith, h) in
      let more : every plain cs ≡ true = ground (arith, h) in
      add_clauses-Unique cs (add_clause s c.type c docs) more (
        subst Unique (sym (add_clause-plain c.type c docs one))
          (add_postings-Unique (key_of c) (s.postings_of (key_of c)) docs u))

every-All : (p : Clause → Bool) (cs : List Clause) → every p cs ≡ true → All (λ c. p c ≡ true) cs
every-All p [] h = tt
every-All p (c ∷ cs) h = (ground (arith, h), every-All p cs (ground (arith, h)))

every_ext :
    (p q : Clause → Bool) (cs : List Clause) → All (λ c. p c ≡ q c) cs → every p cs ≡ every q cs
every_ext p q [] h = refl
every_ext p q (c ∷ cs) (e, h) = rw (e, every_ext p q cs h)

any_ext : (p q : Clause → Bool) (cs : List Clause) → All (λ c. p c ≡ q c) cs → any p cs ≡ any q cs
any_ext p q [] h = refl
any_ext p q (c ∷ cs) (e, h) = rw (e, any_ext p q cs h)

All-pick :
    {P : Clause → Type 0} {Q : Clause → Type 0} (cs : List Clause)
    → ((c : Clause) → P c → Q c)
    → All P cs
    → All Q cs
All-pick [] f h = tt
All-pick (c ∷ cs) f (p, h) = (f c p, All-pick cs f h)

-- What a clause demands, given whether the document has its term.
abbrev pub demands : ClauseType → Bool → Bool
demands must b = b
demands must_not b = not b
demands _ b = true

-- What a query demands of a document of which `has_term` tells the terms.
abbrev pub answers : (Str → Bool) → List Clause → Bool
answers has_term cs =
    every (λ c. demands c.type (has_term (key_of c))) cs
    && (any (λ c. is_must c.type) cs
        || (not (any (λ c. is_should c.type) cs)
            || any (λ c. is_should c.type && has_term (key_of c)) cs))

passes-demands :
    (t : ClauseType) (c : Clause) (doc : Map Posting)
    → not (is_phrase t) ≡ true
    → passes doc t c ≡ demands t (has (key_of c) doc)
passes-demands phrase c doc h = absurd (cc)
passes-demands must c doc h = refl
passes-demands should c doc h = refl
passes-demands must_not c doc h = refl
passes-demands _ c doc h = refl

any-middle :
    (c : Clause) (before cs : List Clause)
    → any (λ d. same (key_of d) (key_of c)) (before ++ (c ∷ cs)) ≡ true
any-middle c [] cs = rw (same_refl (key_of c))
any-middle c (b ∷ before) cs = rw (any-middle c before cs) (ground arith)

-- Among the clauses' keys is the key of each clause.
keys_known :
    (before cs : List Clause)
    → All (λ c. any (λ d. same (key_of d) (key_of c)) (before ++ cs) ≡ true) cs
keys_known before [] = tt
keys_known before (c ∷ cs) = (
  any-middle c before cs,
  subst (λ ds. All (λ e. any (λ d. same (key_of d) (key_of e)) ds ≡ true) cs)
      (append_assoc before (c ∷ []) cs) (keys_known (before ++ (c ∷ [])) cs),
)

pub satisfies-answers :
    (has_term : Str → Bool) (doc : Map Posting) (cs : List Clause)
    → every (λ c. not (is_phrase c.type)) cs ≡ true
    → ((k : Str) → has k doc ≡ (any (λ c. same (key_of c) k) cs && has_term k))
    → satisfies cs doc ≡ answers has_term cs
satisfies-answers has_term doc cs plain_all known =
    let at_key : All (λ c. has (key_of c) doc ≡ has_term (key_of c)) cs =
      All-pick cs (λ c e. known (key_of c) ∙ rw e) (keys_known [] cs) in
    rw (
      every_ext (λ c. passes doc c.type c) (λ c. demands c.type (has (key_of c) doc)) cs
          (All-pick cs (λ c e. passes-demands c.type c doc e) (every-All _ cs plain_all)),
      every_ext (λ c. demands c.type (has (key_of c) doc))
          (λ c. demands c.type (has_term (key_of c))) cs
          (All-pick cs (λ c e. ap (demands c.type) e) at_key),
      any_ext (λ c. is_should c.type && has (key_of c) doc)
          (λ c. is_should c.type && has_term (key_of c)) cs
          (All-pick cs (λ c e. ap (λ b. is_should c.type && b) e) at_key),
    )
