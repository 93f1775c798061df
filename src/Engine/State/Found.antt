-- ===== src/Engine/State/Found.antt =====
-- A document that engine/engine.go has indexed is found by engine/search.go.
use go_search.Base.{
  ◌≡◌, refl, sym, ap, ◌∙◌, ◌<◌, Bool, true, false, not, ◌&&◌, ◌||◌, none, some, List, [], ◌∷◌, ◌++◌,
  Str, same, same_refl, same_iff, arith, inl, inr, Bool-cases, Option-cases, is_some, if◌then◌else◌,
  length, ◌==◌,
}
use mathlib.Core.Path.{subst}
use go_search.Base.Bytes.{Bytes}
use go_search.Base.Map.{Map, lookup}
use go_search.Base.Float.{Float64}
use go_search.Analysis.Token.{Token}
use go_search.Storage.KeyValue.{KeyValue, IsKeyValue}
use go_search.Index.Segment.{Segment, field_term}
use go_search.Index.Inverted.{add_numeric, lookup_postings, delete_posting}
use go_search.Index.Inverted.Listing.{lists-lookup_postings}
use go_search.Index.Inverted.Reports.{IsWellFormed, any_token, Enumerates, has-lookup_map}
use go_search.Index.Inverted.Updates.{visible-add}
use go_search.Index.Inverted.Steps.{add-IsWellFormed, add_raw-IsWellFormed}
use go_search.Query.Clause.{new_builder, add_should, build}
use go_search.Query.Match.{index_key}
use go_search.Engine.Schema.{Schema}
use go_search.Engine.Document.{Document, Field}
use go_search.Engine.Expand.{expand_query}
use go_search.Engine.Searcher.{Searcher}
use go_search.Engine.Search.{search}
use go_search.Engine.Search.Candidates.{posted}
use go_search.Engine.Search.Hits.{has_hit, KeepsHits, has_hit-search, wanted}
use go_search.Engine.State.{
  Settings, Engine, index_field, index_fields, index_internal, index_doc, index_entry, replace_doc,
  append_wal, searcher_of,
}
use go_search.Engine.State.Kept.{Shows, Shows-add, Shows-add_raw, Shows-add_numeric}
use go_search.Engine.State.Indexed.{
  IsKept, IsTextField, index_field-kept, index_fields-kept, index_field-IsTextField,
  index_field-text,
}

-- Whether one of the tokens has the term.
abbrev pub has_term : Str → List Token → Bool
has_term term [] = false
has_term term (token ∷ tokens) = same token.term term || has_term term tokens

any_token-has_term :
    (field term : Str) (tokens : List Token)
    → has_term term tokens ≡ true
    → any_token (some field) (index_key field term) tokens ≡ true
any_token-has_term field term [] h = absurd (cc)
any_token-has_term field term (token ∷ tokens) h = elim (Bool-cases (same token.term term)) [
  | inl e ↦
      let eq : field_term (some field) token.term ≡ index_key field term =
        ap (λ t. field ++ (b':' ∷ t)) ((same_iff token.term term).0 e) in
      rw (eq, same_refl (index_key field term))
  | inr e ↦ rw (any_token-has_term field term tokens (ground (arith, e, h))) (ground arith)
]

-- JSON: what is written can be read. A document with a number that JSON has not may have no raw form.
pub record IsCodec {fl : Float64} (cfg : Settings fl) : Type 0 where
  pub reads :
      (doc : Document fl.F) (raw : Bytes)
      → cfg.marshal doc ≡ some raw
      → (doc' : Document fl.F) × (cfg.unmarshal raw ≡ some doc')

module _ {fl : Float64} {S : Type 0} (cfg : Settings fl) (kv : KeyValue S) where
  sound-IsKept : (d : Str) → IsKept cfg kv d (IsWellFormed fl)
  unfolding add_numeric
  sound-IsKept d = record {
    add_text = λ field tokens idx w. add-IsWellFormed fl cfg.sorting d field tokens idx w;
    add_value = λ field value idx w. add_raw-IsWellFormed fl cfg.sorting d field value idx w;
    add_num = λ field v idx w. record { buffer = w.buffer; segments = w.segments };
  }

  Shows-IsKept : (t d : Str) → IsKept cfg kv d (Shows fl t d)
  Shows-IsKept t d = record {
    add_text = λ field tokens idx s. Shows-add fl cfg.sorting t d field tokens idx s;
    add_value = λ field value idx s. Shows-add_raw fl cfg.sorting t d field value idx s;
    add_num = λ field v idx s. Shows-add_numeric fl t d field d v idx s;
  }

  -- The term of a text field is visible once the field is indexed.
  index_field-Shows :
      (d name term : Str) (field : Field fl.F) (e : Engine fl S) (stored : Map (Field fl.F))
      → IsWellFormed fl e.index
      → IsTextField name e
      → has_term term (cfg.tokens_of field.value) ≡ true
      → Shows fl (index_key name term) d (index_field cfg kv d name field (e, stored)).0.index
  index_field-Shows d name term field e stored w t h =
      let tokens = cfg.tokens_of field.value in
      subst (Shows fl (index_key name term) d)
        (sym (index_field-text cfg kv d name field e stored t))
        (record {
          sound = add-IsWellFormed fl cfg.sorting d (some name) tokens e.index w;
          shown =
              visible-add fl cfg.sorting d (some name) tokens e.index (index_key name term) d
              ∙ ground (arith, same_refl d, any_token-has_term name term tokens h);
        })

  index_fields-Shows :
      (d name term : Str) (field : Field fl.F) (fields : Map (Field fl.F)) (e : Engine fl S)
      (stored : Map (Field fl.F))
      → IsWellFormed fl e.index
      → IsTextField name e
      → lookup name fields ≡ some field
      → has_term term (cfg.tokens_of field.value) ≡ true
      → Shows fl (index_key name term) d (index_fields cfg kv d fields (e, stored)).0.index
  unfolding index_fields lookup
  index_fields-Shows d name term field [] e stored w t l h = absurd (cc)
  index_fields-Shows d name term field ((n, f) ∷ fields) e stored w t l h =
      let next = index_field cfg kv d n f (e, stored) in
      elim (Bool-cases (same n name)) [
        | inl q ↦
            let eq : n ≡ name = (same_iff n name).0 q in
            let l' : some f ≡ some field = rw q at l in
            let f_eq : f ≡ field = cc in
            let tokens : has_term term (cfg.tokens_of f.value) ≡ true =
              ap (λ (g : Field fl.F). has_term term (cfg.tokens_of g.value)) f_eq ∙ h in
            index_fields-kept cfg kv d (Shows fl (index_key name term) d)
              (Shows-IsKept (index_key name term) d) fields next.0 next.1
              (subst (λ i. Shows fl (index_key i term) d next.0.index) eq
                (index_field-Shows d n term f e stored w (subst (λ i. IsTextField i e) (sym eq) t)
                  tokens))
        | inr q ↦
            let l' : lookup name fields ≡ some field = rw q at l in
            index_fields-Shows d name term field fields next.0 next.1
              (index_field-kept cfg kv d (IsWellFormed fl) (sound-IsKept d) n f e stored w)
              (index_field-IsTextField cfg kv d name n f e stored t) l' h
      ]

  -- What `indexInternal` marshals, and what it does where that is written or not.
  abbrev stored_doc : Document fl.F → Engine fl S → Document fl.F
  stored_doc doc e = record {
    id = doc.id;
    fields = (index_fields cfg kv doc.id doc.fields (e, [])).1;
  }

  index_internal-eq :
      (doc : Document fl.F) (e : Engine fl S) (raw : Bytes)
      → cfg.marshal (stored_doc doc e) ≡ some raw
      → index_internal cfg kv doc e ≡ (
          let e' = (index_fields cfg kv doc.id doc.fields (e, [])).0 in
          (record e' { storage = kv.put doc.id raw e'.storage }, true))
  unfolding index_internal
  index_internal-eq doc e raw m = rw (m, index_internal)

  index_internal-failed :
      (doc : Document fl.F) (e : Engine fl S)
      → cfg.marshal (stored_doc doc e) ≡ none
      → (index_internal cfg kv doc e).1 ≡ false
  unfolding index_internal
  index_internal-failed doc e m = rw (m, index_internal)

  either_ready :
      (b : Bool) (name : Str) (e e' : Engine fl S)
      → IsWellFormed fl e.index × IsTextField name e
      → IsWellFormed fl e'.index × IsTextField name e'
      → IsWellFormed fl (if b then e else e').index × IsTextField name (if b then e else e')
  either_ready true name e e' r r' = r
  either_ready false name e e' r r' = r'

  same_schema :
      (name : Str) (e e' : Engine fl S)
      → e'.schema ≡ e.schema
      → IsTextField name e
      → IsTextField name e'
  same_schema name e e' eq t = record {
    mapping = t.mapping;
    mapped = ap (λ (s : Schema). lookup name s.fields) eq ∙ t.mapped;
    type_is = t.type_is;
    is_indexed = t.is_indexed;
    is_explicit = t.is_explicit;
  }

  replace_doc-ready :
      (id name : Str) (e : Engine fl S)
      → IsWellFormed fl e.index
      → IsTextField name e
      → IsWellFormed fl (replace_doc cfg kv id e).index × IsTextField name (replace_doc cfg kv id e)
  unfolding replace_doc delete_posting
  replace_doc-ready id name e w t =
      either_ready (kv.has id e.storage) name _ e
        (record { buffer = w.buffer; segments = w.segments }, same_schema name e _ refl t) (w, t)

  wanted-reported :
      (s : Searcher fl.F) (name term id : Str) (doc : Document fl.F)
      → posted id (s.postings_of (index_key name term)) ≡ true
      → s.stored id ≡ some doc
      → wanted s (build (add_should name term (new_builder fl.F))) id ≡ true
  unfolding build add_should
  wanted-reported s name term id doc p h = rw (p, h)

  abbrev ready_engine : Document fl.F → Engine fl S → Engine fl S
  ready_engine doc e = replace_doc cfg kv doc.id (append_wal cfg kv true (index_entry doc) e)

  index_doc-eq :
      (doc : Document fl.F) (e : Engine fl S)
      → 0 < length doc.id
      → index_doc cfg kv true doc e ≡ index_internal cfg kv doc (ready_engine doc e)
  unfolding index_doc
  index_doc-eq doc e h =
      let filled : (length doc.id == 0) ≡ false = ground (arith, h) in
      let logged : (is_some e.wal && not true) ≡ false = ground arith in rw (filled, logged)

  -- `Index` returned no error, so the document has a raw form.
  index_doc-marshals :
      (doc : Document fl.F) (e : Engine fl S)
      → 0 < length doc.id
      → (index_doc cfg kv true doc e).1 ≡ true
      → (raw : Bytes) × (cfg.marshal (stored_doc doc (ready_engine doc e)) ≡ some raw)
  index_doc-marshals doc e h ok =
      elim (Option-cases (cfg.marshal (stored_doc doc (ready_engine doc e)))) [
        | inl m ↦
            let failed : (index_doc cfg kv true doc e).1 ≡ false =
              ap (λ (r : Engine fl S × Bool). r.1) (index_doc-eq doc e h)
              ∙ index_internal-failed doc (ready_engine doc e) m in
            absurd (cc)
        | inr found ↦ found
      ]

  -- A document that is visible for the term and stored is found, by a query for the term alone.
  found :
      (e : Engine fl S) (name term id : Str) (order : List Segment) (doc : Document fl.F)
      → KeepsHits cfg.sorting fl.F
      → cfg.synonyms ≡ []
      → Shows fl (index_key name term) id e.index
      → Enumerates order e.index.segments
      → (searcher_of cfg kv order e).stored id ≡ some doc
      → has_hit id
          (search
            (searcher_of cfg kv order e)
            cfg.sorting
            (build (add_should name term (new_builder fl.F)))
            0
            none).hits
        ≡ true
  unfolding expand_query build add_should
  found e name term id order doc k syn s en st =
      let q = build (add_should name term (new_builder fl.F)) in
      let searcher = searcher_of cfg kv order e in
      let reports : posted id (lookup_postings fl e.index order (index_key name term)) ≡ true =
        lists-lookup_postings fl e.index order (index_key name term) id s.sound
        ∙ has-lookup_map fl e.index order (index_key name term) id s.sound en
        ∙ s.shown in
      has_hit-search searcher cfg.sorting q id k refl
      ∙ ap (λ sm. wanted searcher (expand_query sm q) id) syn
      ∙ wanted-reported searcher name term id doc reports st

  -- After an `Index` that returned no error, of a document with a name, with a log whose append
  -- succeeds or none, by an engine without synonyms whose index is well formed, a `Search` without
  -- a limit and without options for a query of one should clause, for a term that the analyzer
  -- finds in a field which is explicitly mapped as an indexed text, returns the document, whatever
  -- its other fields are and whether or not it was indexed before, and with the segments in any
  -- order. The storage keeps what is put, the sorting keeps the results, and what JSON writes can
  -- be read back.
  pub search-index_doc :
      (e : Engine fl S) (doc : Document fl.F) (name term : Str) (field : Field fl.F)
      (order : List Segment)
      → IsKeyValue kv
      → KeepsHits cfg.sorting fl.F
      → IsCodec cfg
      → cfg.synonyms ≡ []
      → IsWellFormed fl e.index
      → IsTextField name e
      → 0 < length doc.id
      → lookup name doc.fields ≡ some field
      → has_term term (cfg.tokens_of field.value) ≡ true
      → (index_doc cfg kv true doc e).1 ≡ true
      → Enumerates order (index_doc cfg kv true doc e).0.index.segments
      → has_hit doc.id
          (search
            (searcher_of cfg kv order (index_doc cfg kv true doc e).0)
            cfg.sorting
            (build (add_should name term (new_builder fl.F)))
            0
            none).hits
        ≡ true
  search-index_doc e doc name term field order lawful k codec syn w t nonempty l h ok en =
      let e₁ = append_wal cfg kv true (index_entry doc) e in
      let e₂ = ready_engine doc e in
      let (w₂, t₂) = replace_doc-ready doc.id name e₁ w (same_schema name e e₁ refl t) in
      let (raw, m) = index_doc-marshals doc e nonempty ok in
      let whole = index_doc-eq doc e nonempty ∙ index_internal-eq doc e₂ raw m in
      let result = (index_doc cfg kv true doc e).0 in
      let got : kv.get doc.id result.storage ≡ some raw =
        ap (λ (r : Engine fl S × Bool). kv.get doc.id r.0.storage) whole
        ∙ lawful.get-put doc.id doc.id raw _
        ∙ rw (same_refl doc.id) in
      let (doc', read) = codec.reads (stored_doc doc e₂) raw m in
      found result name term doc.id order doc' k syn
        (subst (λ (r : Engine fl S × Bool). Shows fl (index_key name term) doc.id r.0.index)
          (sym whole) (index_fields-Shows doc.id name term field doc.fields e₂ [] w₂ t₂ l h))
        en (rw got read)
