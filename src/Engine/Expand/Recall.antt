-- ===== src/Engine/Expand/Recall.antt =====
-- What the expansion by synonyms does to the answer of `Match`.
use go_search.Base.{
  ◌≡◌, refl, sym, ◌∙◌, Bool, true, false, ◌&&◌, ◌||◌, List, [], ◌∷◌, ◌++◌, map, arith, ◌==◌, length,
  Str, inl, inr, Bool-cases,
}
use go_search.Base.Map.{Map, has}
use go_search.Index.Posting.{Posting}
use go_search.Query.Clause.{
  ClauseType, must, should, must_not, phrase, range, fuzzy, regex, Clause, Query, clause_of,
}
use go_search.Query.Match.{
  any, every, passes, is_must, is_should, satisfies, key_of, match, match-eq-satisfies,
}
use go_search.Engine.Expand.{SynonymMap, get_synonyms, expand_clause, expand_clauses, expand_query}

any-append : (p : Clause → Bool) (cs ds : List Clause) → any p (cs ++ ds) ≡ (any p cs || any p ds)
any-append p [] ds = refl
any-append p (c ∷ cs) ds = ground (arith, any-append p cs ds)

pub every-append :
    (p : Clause → Bool) (cs ds : List Clause) → every p (cs ++ ds) ≡ (every p cs && every p ds)
every-append p [] ds = refl
every-append p (c ∷ cs) ds = ground (arith, every-append p cs ds)

-- The types of clause that the methods of the builder make.
abbrev pub from_builder : ClauseType → Bool
from_builder range = false
from_builder fuzzy = false
from_builder regex = false
from_builder _ = true

module _ (doc : Map Posting) where
  abbrev meets : Clause → Bool
  meets c = passes doc c.type c

  abbrev hits : Clause → Bool
  hits c = is_should c.type && has (key_of c) doc

  abbrev must_clause : Clause → Bool
  must_clause c = is_must c.type

  abbrev should_clause : Clause → Bool
  should_clause c = is_should c.type

  synonyms_meet :
      (field : Str) (terms : List Str) → every meets (map (clause_of should field) terms) ≡ true
  synonyms_meet field [] = refl
  synonyms_meet field (s ∷ terms) = synonyms_meet field terms

  -- What the clauses that stand for one clause keep of it.
  record Stands (c : Clause) (ds : List Clause) : Type 0 where
    met : meets c ≡ true → every meets ds ≡ true
    needed : meets c ≡ true → must_clause c ≡ true → (any must_clause ds || any hits ds) ≡ true
    hit : hits c ≡ true → any hits ds ≡ true
    other : must_clause c ≡ false → should_clause c ≡ false → any should_clause ds ≡ false

  alone : (c : Clause) → Stands c (c ∷ [])
  alone c = record {
    met = λ e. ground (arith, e);
    needed = λ e f. ground (arith, f);
    hit = λ e. ground (arith, e);
    other = λ e f. ground (arith, f);
  }

  replaced :
      (t : ClauseType) (c : Clause) (terms : List Str)
      → c.type ≡ t
      → (is_must t || is_should t) ≡ true
      → Stands c (clause_of should c.field c.term ∷ map (clause_of should c.field) terms)
  replaced must c terms e h = record {
    met = λ m. synonyms_meet c.field terms;
    needed = λ m f. ground (arith, e, m);
    hit = λ m. ground (arith, e, m);
    other = λ m f. absurd (ground (arith, e, m));
  }
  replaced should c terms e h = record {
    met = λ m. synonyms_meet c.field terms;
    needed = λ m f. absurd (ground (arith, e, f));
    hit = λ m. ground (arith, e, m);
    other = λ m f. absurd (ground (arith, e, f));
  }
  replaced must_not c terms e h = absurd (cc)
  replaced phrase c terms e h = absurd (cc)
  replaced range c terms e h = absurd (cc)
  replaced fuzzy c terms e h = absurd (cc)
  replaced regex c terms e h = absurd (cc)

  expand_clause-Stands :
      (t : ClauseType) (c : Clause) (terms : List Str)
      → c.type ≡ t
      → from_builder t ≡ true
      → Stands c (expand_clause t c terms)
  unfolding expand_clause
  expand_clause-Stands must_not c terms e h = alone c
  expand_clause-Stands phrase c terms e h = alone c
  expand_clause-Stands must c [] e h = alone c
  expand_clause-Stands should c [] e h = alone c
  expand_clause-Stands must c (s ∷ terms) e h = replaced must c (s ∷ terms) e refl
  expand_clause-Stands should c (s ∷ terms) e h = replaced should c (s ∷ terms) e refl
  expand_clause-Stands range c terms e h = absurd (cc)
  expand_clause-Stands fuzzy c terms e h = absurd (cc)
  expand_clause-Stands regex c terms e h = absurd (cc)

  -- The same of lists of clauses.
  record StandFor (cs ds : List Clause) : Type 0 where
    met : every meets cs ≡ true → every meets ds ≡ true
    needed :
        every meets cs ≡ true
        → any must_clause cs ≡ true
        → (any must_clause ds || any hits ds) ≡ true
    hit : any hits cs ≡ true → any hits ds ≡ true
    other : any must_clause cs ≡ false → any should_clause cs ≡ false → any should_clause ds ≡ false

  stand_more :
      (c : Clause) (cs ds es : List Clause)
      → Stands c ds
      → StandFor cs es
      → StandFor (c ∷ cs) (ds ++ es)
  stand_more c cs ds es s t = record {
    met = λ m. rw (every-append meets ds es) (ground (arith, m, s.met, t.met));
    needed = λ m n.
        rw (any-append must_clause ds es, any-append hits ds es)
          (ground (arith, m, n, s.needed, t.needed));
    hit = λ m. rw (any-append hits ds es) (ground (arith, m, s.hit, t.hit));
    other = λ m n. rw (any-append should_clause ds es) (ground (arith, m, n, s.other, t.other));
  }

  expand_clauses-StandFor :
      (sm : SynonymMap) (cs : List Clause)
      → every (λ c. from_builder c.type) cs ≡ true
      → StandFor cs (expand_clauses sm cs)
  unfolding expand_clauses
  expand_clauses-StandFor sm [] h = record {
    met = λ m. m;
    needed = λ m n. absurd (cc);
    hit = λ m. m;
    other = λ m n. n;
  }
  expand_clauses-StandFor sm (c ∷ cs) h =
      let one : from_builder c.type ≡ true = ground (arith, h) in
      let more : every (λ d. from_builder d.type) cs ≡ true = ground (arith, h) in
      stand_more c cs (expand_clause c.type c (get_synonyms c.term sm)) (expand_clauses sm cs)
        (expand_clause-Stands c.type c (get_synonyms c.term sm) refl one)
        (expand_clauses-StandFor sm cs more)

  StandFor-satisfies :
      (cs ds : List Clause) → StandFor cs ds → satisfies cs doc ≡ true → satisfies ds doc ≡ true
  StandFor-satisfies cs ds s h = ground (arith, h, s.met, s.needed, s.hit, s.other)

-- If `Match` accepts the postings of a document for a query whose clauses are of the types must,
-- should, must-not and phrase, it accepts them for the query with its synonyms expanded.
pub match-expand_query :
    {F : Type 0} (sm : SynonymMap) (q : Query F) (doc : Map Posting)
    → every (λ c. from_builder c.type) q.clauses ≡ true
    → match q doc ≡ true
    → match (expand_query sm q) doc ≡ true
unfolding expand_query
match-expand_query sm q doc b h = elim (Bool-cases (length sm == 0)) [
  | inl e ↦ rw e h
  | inr e ↦
      rw
        (
          e,
          match-eq-satisfies
              (record {
                clauses = expand_clauses sm q.clauses;
                ranges = [];
                terms = [];
                regexes = [];
              })
              doc,
        )
        (StandFor-satisfies doc q.clauses (expand_clauses sm q.clauses)
          (expand_clauses-StandFor doc sm q.clauses b) (sym (match-eq-satisfies q doc) ∙ h))
]
