-- ===== src/Index/Inverted/Reports.antt =====
-- What `Lookup` of index/index.go reports, whatever the order in which the segments report, and how
-- each operation changes it.
use go_search.Base.{
  ◌≡◌, ◌↔◌, refl, sym, ap, ◌∙◌, Bool, true, false, not, ◌&&◌, ◌||◌, Option, List, [], ◌∷◌, ◌++◌,
  arith, Str, same, same_iff, inl, inr, Bool-cases, ◌∈◌,
}
use mathlib.Core.Path.{subst}
use go_search.Base.Map.{lookup, delete, has, StrSet}
use go_search.Base.Float.{Float64}
use go_search.Analysis.Token.{Token}
use go_search.Index.KdTree.{Sorting}
use go_search.Index.Segment.{
  Segment, postings_for, has_posting, field_term, delete_ids, any_segment, buffer_live,
}
use go_search.Index.Segment.WellFormed.{PostingsOk, SegmentsOk}
use go_search.Index.Segment.Visible.{has-insert, has-delete, has-add_segments, has-buffer_live}
use go_search.Index.Inverted.{Index, lookup_map, flush, delete_posting}

-- The order in which the segments report holds each segment, and nothing else.
abbrev pub Enumerates : List Segment → List Segment → Type 0
Enumerates order segs = (seg : Segment) → (seg ∈ order) ↔ (seg ∈ segs)

pub any_segment_of :
    (t j : Str) (segs : List Segment) (seg : Segment)
    → seg ∈ segs
    → has_posting t j seg.postings ≡ true
    → any_segment t j segs ≡ true
any_segment_of t j [] seg m h = absurd m
any_segment_of t j (s ∷ segs) seg (inl e) h = rw (sym (ap (λ k. has_posting t j k.postings) e) ∙ h)
any_segment_of t j (s ∷ segs) seg (inr m) h = ground (arith, any_segment_of t j segs seg m h)

any_segment_ex :
    (t j : Str) (segs : List Segment)
    → any_segment t j segs ≡ true
    → (seg : Segment) × (seg ∈ segs) × (has_posting t j seg.postings ≡ true)
any_segment_ex t j [] h = absurd (cc)
any_segment_ex t j (s ∷ segs) h = elim (Bool-cases (has_posting t j s.postings)) [
  | inl e ↦ (s, inl refl, e)
  | inr e ↦ let (seg, m, k) = any_segment_ex t j segs (ground arith) in (seg, inr m, k)
]

Bool-iff : (a b : Bool) → (a ≡ true → b ≡ true) → (b ≡ true → a ≡ true) → a ≡ b
Bool-iff true b f g = sym (f refl)
Bool-iff false true f g = g refl
Bool-iff false false f g = refl

any_segment-Enumerates :
    (t j : Str) (order segs : List Segment)
    → Enumerates order segs
    → any_segment t j order ≡ any_segment t j segs
any_segment-Enumerates t j order segs en =
    Bool-iff _ _
      (λ h.
        let (seg, m, k) = any_segment_ex t j order h in
        any_segment_of t j segs seg ((en seg).0 m) k)
      (λ h.
        let (seg, m, k) = any_segment_ex t j segs h in
        any_segment_of t j order seg ((en seg).1 m) k)

SegmentsOk-mem :
    (segs : List Segment) (seg : Segment) → SegmentsOk segs → seg ∈ segs → PostingsOk seg.postings
SegmentsOk-mem [] seg h m = absurd m
SegmentsOk-mem (s ∷ segs) seg (hs, h) (inl e) = subst (λ k. PostingsOk k.postings) (sym e) hs
SegmentsOk-mem (s ∷ segs) seg (hs, h) (inr m) = SegmentsOk-mem segs seg h m

SegmentsOk-order :
    (order segs : List Segment)
    → ((seg : Segment) → seg ∈ order → seg ∈ segs)
    → SegmentsOk segs
    → SegmentsOk order
SegmentsOk-order [] segs sub h = tt
SegmentsOk-order (s ∷ order) segs sub h = (
  SegmentsOk-mem segs s h (sub s (inl refl)),
  SegmentsOk-order order segs (λ k m. sub k (inr m)) h,
)

any_segment-append :
    (t j : Str) (segs : List Segment) (seg : Segment)
    → any_segment t j (segs ++ (seg ∷ [])) ≡ (any_segment t j segs || has_posting t j seg.postings)
any_segment-append t j [] seg = ground arith
any_segment-append t j (s ∷ segs) seg = ground (arith, any_segment-append t j segs seg)

-- Some token of the list is this term of this field.
abbrev pub any_token : Option Str → Str → List Token → Bool
any_token field t [] = false
any_token field t (token ∷ tokens) =
    same (field_term field token.term) t || any_token field t tokens

pub has-delete_ids :
    (ids set : StrSet) (j : Str) → has j (delete_ids ids set) ≡ (not (has j ids) && has j set)
unfolding delete_ids lookup
has-delete_ids [] set j = ground arith
has-delete_ids ((id, u) ∷ ids) set j =
    ground (arith, has-delete_ids ids (delete id set) j, has-delete id j set, same_iff id j)

module _ (fl : Float64) where
  pub record IsWellFormed (idx : Index fl) : Type 0 where
    pub buffer : PostingsOk idx.buffer
    pub segments : SegmentsOk idx.segments

  -- The specification: not deleted, and in the buffer or in a segment.
  abbrev pub visible : Index fl → Str → Str → Bool
  visible idx t j =
      not (has j idx.tombstones) && (has_posting t j idx.buffer || any_segment t j idx.segments)

  -- On a well-formed index `Lookup` reports a document exactly when it has no tombstone and the
  -- buffer or a segment has a posting of the term for it, in whatever order the segments report.
  pub has-lookup_map :
      (idx : Index fl) (order : List Segment) (t j : Str)
      → IsWellFormed idx
      → Enumerates order idx.segments
      → has j (lookup_map fl idx order t) ≡ visible idx t j
  unfolding lookup_map
  has-lookup_map idx order t j w en = ground (
    arith,
    has-add_segments idx.tombstones t order (buffer_live idx.tombstones (postings_for t idx.buffer))
        j (SegmentsOk-order order idx.segments (λ k m. (en k).0 m) w.segments),
    has-buffer_live idx.tombstones (postings_for t idx.buffer) j,
    any_segment-Enumerates t j order idx.segments en,
  )

  pub visible-flush :
      (sorting : Sorting) (idx : Index fl) (t j : Str)
      → visible (flush fl sorting idx) t j ≡ visible idx t j
  unfolding flush lookup
  visible-flush sorting idx t j = ground (
    arith,
    any_segment-append t j idx.segments (record { postings = idx.buffer; docs = idx.buffer_docs }),
  )

  pub visible-delete :
      (idx : Index fl) (d t j : Str)
      → visible (delete_posting fl d idx) t j ≡ (not (same d j) && visible idx t j)
  unfolding delete_posting
  visible-delete idx d t j = ground (arith, has-insert d j tt idx.tombstones)
