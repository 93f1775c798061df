-- ===== src/Engine/State/Kept.antt =====
-- What the calls of engine/engine.go that add to the index keep visible of the document.
use go_search.Base.{◌≡◌, ◌∙◌, ◌+◌, true, Option, List, ◌∷◌, ◌++◌, Str, same_refl, arith}
use go_search.Base.Map.{insert}
use go_search.Base.Float.{Float64}
use go_search.Base.Int.{increment}
use go_search.Analysis.Token.{Token}
use go_search.Index.Trie
use go_search.Index.KdTree.{Sorting}
use go_search.Index.Segment.{add_posting}
use go_search.Index.Segment.Visible.{has_posting-add_posting}
use go_search.Index.Inverted.{Index, add, add_raw, add_numeric, clear_tombstone}
use go_search.Index.Inverted.Reports.{IsWellFormed, visible}
use go_search.Index.Inverted.Updates.{
  visible-add, visible-flush_if_full, clear_tombstone-buffer, clear_tombstone-tombstones,
  clear_tombstone-segments,
}
use go_search.Index.Inverted.Steps.{add-IsWellFormed, add_raw-IsWellFormed}

module _ (fl : Float64) where
  -- The index is well formed, and the document visible for a term.
  pub record Shows (t d : Str) (idx : Index fl) : Type 0 where
    pub sound : IsWellFormed fl idx
    pub shown : visible fl idx t d ≡ true

  pub Shows-add :
      (sorting : Sorting) (t d : Str) (field : Option Str) (tokens : List Token) (idx : Index fl)
      → Shows t d idx
      → Shows t d (add fl sorting d field tokens idx)
  Shows-add sorting t d field tokens idx s = record {
    sound = add-IsWellFormed fl sorting d field tokens idx s.sound;
    shown = visible-add fl sorting d field tokens idx t d ∙ ground (arith, same_refl d, s.shown);
  }

  pub Shows-add_raw :
      (sorting : Sorting) (t d field value : Str) (idx : Index fl)
      → Shows t d idx
      → Shows t d (add_raw fl sorting d field value idx)
  unfolding add_raw
  Shows-add_raw sorting t d field value idx s =
      let idx₁ = clear_tombstone fl d idx in
      let term = field ++ (b':' ∷ value) in
      record {
        sound = add_raw-IsWellFormed fl sorting d field value idx s.sound;
        shown =
            visible-flush_if_full fl sorting
              (record idx₁ {
                trie = Trie.insert term idx₁.trie;
                buffer = add_posting term d 0 idx₁.buffer;
                buffer_docs = insert d tt idx₁.buffer_docs;
                doc_count = increment idx₁.doc_count;
                token_count = idx₁.token_count + 1;
              })
              t d
            ∙ rw (clear_tombstone-segments fl d idx) (
                ground (
                  arith,
                  has_posting-add_posting term d 0 idx₁.buffer t d,
                  clear_tombstone-buffer fl d idx t d,
                  clear_tombstone-tombstones fl d idx d,
                  same_refl d,
                  s.shown,
                ));
      }

  pub Shows-add_numeric :
      (t d field doc_id : Str) (value : fl.F) (idx : Index fl)
      → Shows t d idx
      → Shows t d (add_numeric fl field doc_id value idx)
  unfolding add_numeric
  Shows-add_numeric t d field doc_id value idx s = record {
    sound = record { buffer = s.sound.buffer; segments = s.sound.segments };
    shown = s.shown;
  }
