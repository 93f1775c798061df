-- ===== src/Engine/Searcher.antt =====
-- What the searches of engine/search.go read: the indexes, the documents and the settings of an
-- engine, as it stands while they hold its read lock.
use go_search.Base.{
  ℕ, ◌+◌, Bool, true, false, Option, none, some, List, [], ◌∷◌, ◌++◌, ◌==◌, if◌then◌else◌, Str,
  codes, length, keep, not,
}
use go_search.Base.Int.{ℤ, pos}
use go_search.Base.Map.{Map, lookup, lookup_or, insert}
use go_search.Scoring.{FloatOps, Params, bm25_score}
use go_search.Analysis.Token.{Token}
use go_search.Index.Posting.{Posting}
use go_search.Index.KdTree.{FieldBound}
use go_search.Index.FieldIndex.{FieldEntry}
use go_search.Query.Clause.{ClauseType, must, should, must_not, Clause, Query}
use go_search.Query.Match.{key_of}
use go_search.Engine.Schema.{Schema, FieldType, text, get_field}
use go_search.Engine.Document.{Document, Result}
use go_search.Engine.Expand.{SynonymMap}
use go_search.Engine.Filters.{pass_terms_filters, pass_regex_filters}
use go_search.Engine.Highlight.{highlight_doc}

-- `stored` is `Get` of the storage with `UnmarshalJSON`, `less` compares float64s, `compile` is
-- `regexp.Compile`, `tokens_of` is the analyzer's.
pub record Searcher (F : Type 0) : Type 0 where
  pub postings_of : Str → List Posting
  pub range_query : List (FieldBound F) → List Str
  pub sorted_entries : Str → Bool → Option (List (FieldEntry F))
  pub stored : Str → Option (Document F)
  pub doc_count : ℤ
  pub doc_lengths : Map ℕ
  pub schema : Schema
  pub synonyms : SynonymMap
  pub bm25_params : Params F
  pub tokens_of : Str → List Token
  pub compile : Str → Option (Str → Bool)
  pub parse_float : Str → Option F
  pub less : F → F → Bool
  pub ops : FloatOps F

-- `strings.SplitN(key, ":", 2)[1]`: each key is a document's ID, a colon and a field.
unfoldable pub after_colon : Str → Str
after_colon [] = []
after_colon (c ∷ key) = let rest = after_colon key in if c == b':' then key else rest

module _ {F : Type 0} (s : Searcher F) where
  -- The two sums that `fieldAvgDocLens` makes, and the division.
  unfoldable pub sum_lengths : Map ℕ → Map F → Map F
  unfolding after_colon
  sum_lengths [] sums = sums
  sum_lengths ((key, doc_len) ∷ lengths) sums =
      let field = after_colon key in
      sum_lengths lengths (
        insert field
          (s.ops.plus (lookup_or (s.ops.ratio 0 1) field sums) (s.ops.of_int (pos doc_len))) sums)

  unfoldable pub count_lengths : Map ℕ → Map ℕ → Map ℕ
  unfolding after_colon
  count_lengths [] counts = counts
  count_lengths ((key, doc_len) ∷ lengths) counts =
      let field = after_colon key in
      count_lengths lengths (insert field (lookup_or 0 field counts + 1) counts)

  unfoldable pub divide_sums : Map ℕ → Map F → Map F
  divide_sums counts [] = []
  divide_sums counts ((field, sum) ∷ sums) =
      (field, s.ops.divide sum (s.ops.of_int (pos (lookup_or 0 field counts))))
      ∷ divide_sums counts sums

  unfoldable pub field_avg_doc_lens : Map F
  unfolding sum_lengths count_lengths divide_sums
  field_avg_doc_lens = divide_sums (count_lengths s.doc_lengths []) (sum_lengths s.doc_lengths [])

  abbrev pub boost_of : Str → Document F → F
  boost_of name doc = elim (lookup name doc.fields) [
    | none ↦ s.ops.ratio 0 1
    | some field ↦ field.boost
  ]

  -- One round of the loop of `scoreDoc` over the clauses.
  unfoldable pub clause_score : Map F → Document F → Str → Map Posting → ClauseType → Clause → F → F
  unfolding bm25_score
  clause_score avgs doc doc_id postings must_not c total = total
  clause_score avgs doc doc_id postings _ c total = elim (lookup (key_of c) postings) [
    | none ↦ total
    | some p ↦ s.ops.plus total (
        bm25_score s.ops (s.ops.of_int (pos p.frequency))
          (lookup_or 0 (doc_id ++ (b':' ∷ c.field)) s.doc_lengths)
          (lookup_or (s.ops.ratio 0 1) c.field avgs) s.doc_count
          (pos (length (s.postings_of (key_of c)))) s.bm25_params (boost_of c.field doc))
  ]

  unfoldable pub total_score : Map F → Document F → Str → Map Posting → List Clause → F → F
  unfolding clause_score
  total_score avgs doc doc_id postings [] total = total
  total_score avgs doc doc_id postings (c ∷ clauses) total =
      total_score avgs doc doc_id postings clauses
        (clause_score avgs doc doc_id postings c.type c total)

  abbrev pub is_shown : ClauseType → Bool
  is_shown must = true
  is_shown should = true
  is_shown _ = false

  -- `terms`
  unfoldable pub shown_terms : Map Posting → List Clause → List Str
  shown_terms postings [] = []
  shown_terms postings (c ∷ clauses) =
      let rest = shown_terms postings clauses in
      elim (lookup (key_of c) postings) [
        | none ↦ rest
        | some p ↦ if is_shown c.type then c.term ∷ rest else rest
      ]

  abbrev pub is_text : FieldType → Bool
  is_text text = true
  is_text _ = false

  abbrev pub is_text_field : Str → Bool
  is_text_field name = elim (get_field name s.schema) [ none ↦ true | some fm ↦ is_text fm.type ]

  -- Whether the document is stored and passes the filters.
  unfoldable pub filtered : Query F → Str → Option (Document F)
  unfolding pass_terms_filters pass_regex_filters
  filtered q doc_id = elim (s.stored doc_id) [
    | none ↦ none
    | some doc ↦
        if not (pass_terms_filters doc q.terms)
        then none
        else if not (pass_regex_filters s.compile doc q.regexes)
        then none
        else some doc
  ]

  unfoldable pub score_doc : Str → Map Posting → Query F → Map F → Option (Result F)
  unfolding filtered total_score shown_terms highlight_doc
  score_doc doc_id postings q avgs = elim (filtered q doc_id) [
    | none ↦ none
    | some doc ↦ some (record {
      id = doc_id;
      fields = doc.fields;
      score = total_score avgs doc doc_id postings q.clauses (s.ops.ratio 0 1);
      highlights =
          highlight_doc s.tokens_of (codes "<em>") (codes "</em>")
            (record { id = doc.id; fields = keep (λ kv. is_text_field kv.0) doc.fields })
            (shown_terms postings q.clauses);
    })
  ]
