-- ===== src/Index/Numeric/Flush.antt =====
-- What `Flush` of index/numeric.go writes, and what `Range` finds afterwards.
use go_search.Base.{
  ℕ, zero, suc, ◌+◌, ◌^◌, ◌≤◌, ◌<◌, ◌≡◌, refl, sym, ap, ◌∙◌, false, Option, none, some, List, [],
  ◌∷◌, ◌++◌, map, length, take, drop, Str, same, same_iff, same_refl, codes, keep, All, All-map,
  arith, inl, inr, Bool-cases, take-append-drop, length-take, length-drop, drop-append, append-nil,
}
use go_search.Base.Bytes.{Bytes}
use go_search.Base.Decimal.{decimal, decimal_injective}
use go_search.Base.Map.{Map, lookup, insert, lookup-insert}
use go_search.Index.KdTree.{Sorting}
use go_search.Index.Numeric.{
  BkdNode, NumericIndex, NumberType, block_key, block_size, last_value, write_blocks, load_block,
  flush_field, flush_fields, flush_numeric, fields_to_flush, sort_entries, live_entries, live_ids,
  range_encoded, search_buffer, in_bounds, build_tree,
}
use go_search.Index.NumericBlock.{NumericEntry, encode_numeric_block}
use go_search.Index.Numeric.Block.{EntryFits, decode-encode_numeric_block}
use go_search.Index.Numeric.Bisect.{SortedFrom}
use go_search.Index.Numeric.Tree.{Within, search_tree-eq}
use go_search.Index.Numeric.Build.{Chain, build_tree-Rooted}

append_cancel : (xs ys zs : Str) → xs ++ ys ≡ xs ++ zs → ys ≡ zs
append_cancel xs ys zs e = sym (drop-append xs ys) ∙ ap (drop (length xs)) e ∙ drop-append xs zs

block_key_injective : (field : Str) (i j : ℕ) → block_key field i ≡ block_key field j → i ≡ j
unfolding block_key
block_key_injective field i j e = decimal_injective i j (
    append_cancel (b':' ∷ []) (decimal i) (decimal j) (
      append_cancel field (b':' ∷ decimal i) (b':' ∷ decimal j) (
        append_cancel (codes "_numblock:") (field ++ (b':' ∷ decimal i))
          (field ++ (b':' ∷ decimal j)) e)))

same-block_key :
    (field : Str) (i j : ℕ) → j < i → same (block_key field i) (block_key field j) ≡ false
same-block_key field i j h = elim (Bool-cases (same (block_key field i) (block_key field j))) [
  | inl e ↦
      let eq =
        block_key_injective field i j ((same_iff (block_key field i) (block_key field j)).0 e) in
      absurd (omega arith)
  | inr e ↦ e
]

sorted_take : (low m : ℕ) (es : List NumericEntry) → SortedFrom low es → SortedFrom low (take m es)
sorted_take low zero es s = tt
sorted_take low (suc m) [] s = tt
sorted_take low (suc m) (e ∷ es) (l, s) = (l, sorted_take e.value m es s)

sorted_rest :
    (low m : ℕ) (es : List NumericEntry)
    → SortedFrom low es
    → SortedFrom (last_value low (take m es)) (drop m es)
sorted_rest low zero es s = s
sorted_rest low (suc m) [] s = tt
sorted_rest low (suc m) (e ∷ es) (l, s) = sorted_rest e.value m es s

low-last_value : (low : ℕ) (es : List NumericEntry) → SortedFrom low es → low ≤ last_value low es
low-last_value low [] s = omega arith
low-last_value low (e ∷ es) (l, s) = omega (arith, low-last_value e.value es s)

sorted_last :
    (low : ℕ) (es : List NumericEntry) → SortedFrom low es → Within low (last_value low es) es
sorted_last low [] s = tt
sorted_last low (e ∷ es) (l, s) = (
  (l, low-last_value e.value es s),
  All-map es (λ x (p, q). (omega arith, q)) (sorted_last e.value es s),
)

last_value-split :
    (low m : ℕ) (es : List NumericEntry)
    → last_value (last_value low (take m es)) (drop m es) ≡ last_value low es
last_value-split low zero es = refl
last_value-split low (suc m) [] = refl
last_value-split low (suc m) (e ∷ es) = last_value-split e.value m es

All-drop :
    (P : NumericEntry → Type 0) (m : ℕ) (es : List NumericEntry) → All P es → All P (drop m es)
All-drop P zero es h = h
All-drop P (suc m) [] h = tt
All-drop P (suc m) (e ∷ es) (p, h) = All-drop P m es h

All-take :
    (P : NumericEntry → Type 0) (m : ℕ) (es : List NumericEntry) → All P es → All P (take m es)
All-take P zero es h = tt
All-take P (suc m) [] h = tt
All-take P (suc m) (e ∷ es) (p, h) = (p, All-take P m es h)

-- Later blocks leave the earlier ones alone.
write_blocks-frame :
    (fuel : ℕ) (field : Str) (i j : ℕ) (es : List NumericEntry) (store : Map Bytes)
    → j < i
    → lookup (block_key field j) (write_blocks fuel field i es store).0
      ≡ lookup (block_key field j) store
unfolding write_blocks
write_blocks-frame zero field i j es store h = refl
write_blocks-frame (suc fuel) field i j [] store h = refl
write_blocks-frame (suc fuel) field i j (e ∷ es) store h =
    write_blocks-frame fuel field (i + 1) j (drop block_size (e ∷ es))
      (insert (block_key field i) (encode_numeric_block (take block_size (e ∷ es))) store)
      (omega arith)
    ∙ lookup-insert (block_key field i) (block_key field j)
        (encode_numeric_block (take block_size (e ∷ es))) store
    ∙ rw (same-block_key field i j h)

load_block-eq :
    (store : Map Bytes) (key : Str) (block : List NumericEntry)
    → lookup key store ≡ some (encode_numeric_block block)
    → All EntryFits block
    → length block < 2 ^ 32
    → load_block store key ≡ block
unfolding load_block
load_block-eq store key block e fits n =
    rw (e, load_block) (rw (decode-encode_numeric_block block fits n))

write_blocks-Chain :
    (fuel : ℕ) (field : Str) (i low high : ℕ) (es : List NumericEntry) (store : Map Bytes)
    → length es < fuel
    → SortedFrom low es
    → All EntryFits es
    → last_value low es ≤ high
    → Chain
        (write_blocks fuel field i es store).0
        low
        high
        (write_blocks fuel field i es store).1
        es
unfolding write_blocks
write_blocks-Chain zero field i low high es store f s fits h = absurd (omega arith)
write_blocks-Chain (suc fuel) field i low high [] store f s fits h = (h, refl)
write_blocks-Chain (suc fuel) field i low high (e ∷ es) store f (l, s) fits h =
    let block = take block_size (e ∷ es) in
    let rest = drop block_size (e ∷ es) in
    let from : SortedFrom e.value (e ∷ es) = (omega arith, s) in
    let key = block_key field i in
    let store' = insert key (encode_numeric_block block) store in
    let at_key : lookup key (write_blocks fuel field (i + 1) rest store').0
        ≡ some (encode_numeric_block block) =
      write_blocks-frame fuel field (i + 1) i rest store' (omega arith)
      ∙ lookup-insert key key (encode_numeric_block block) store
      ∙ rw (same_refl key) in
    (
      block,
      rest,
      sym (take-append-drop block_size (e ∷ es)),
      (
        load_block-eq _ key block at_key (All-take EntryFits block_size (e ∷ es) fits)
            (omega (arith, length-take block_size (e ∷ es))),
        sorted_take e.value block_size (e ∷ es) from,
        sorted_last e.value block (sorted_take e.value block_size (e ∷ es) from),
      ),
      l,
      low-last_value e.value block (sorted_take e.value block_size (e ∷ es) from),
      write_blocks-Chain fuel field (i + 1) (last_value e.value block) high rest store'
          (omega (arith, length-drop block_size (e ∷ es)))
          (sorted_rest e.value block_size (e ∷ es) from)
          (All-drop EntryFits block_size (e ∷ es) fits)
          (omega (arith, last_value-split e.value block_size (e ∷ es))),
    )

live_ids-all : (es : List NumericEntry) → live_ids [] es ≡ map (λ e. e.doc_id) es
unfolding keep lookup
live_ids-all [] = refl
live_ids-all (e ∷ es) = ap (λ (t : List Str). e.doc_id ∷ t) (live_ids-all es)

search-blocks :
    (field : Str) (lo hi : ℕ) (store : Map Bytes) (leaves : List BkdNode) (es : List NumericEntry)
    (roots : Map (Option BkdNode)) (types : Map NumberType)
    → Chain store 0 (last_value 0 es) leaves es
    → range_encoded field lo hi (record {
      roots = insert field (build_tree (suc (length leaves)) leaves) roots;
      buffer = [];
      deleted = [];
      field_types = types;
      store = store;
    })
      ≡ some (map (λ e. e.doc_id) (keep (in_bounds lo hi) es))
unfolding range_encoded keep lookup search_buffer build_tree
search-blocks field lo hi store [] es roots types (h, e) =
    rw (lookup-insert field field none roots, same_refl field, e)
search-blocks field lo hi store (n ∷ leaves) es roots types c =
    let r =
      build_tree-Rooted store (suc (length (n ∷ leaves))) 0 (last_value 0 es) (n ∷ leaves) es
        (omega arith) (omega arith) c in
    rw
      (
        lookup-insert field field (build_tree (suc (length (n ∷ leaves))) (n ∷ leaves)) roots,
        same_refl field,
        r.built,
        search_tree-eq store [] lo hi r.root es r.holds,
      )
      (ap some (
        append-nil (live_ids [] (keep (in_bounds lo hi) es))
        ∙ live_ids-all (keep (in_bounds lo hi) es)))

-- After `Flush` of a numeric index with one field to flush, a range query, by the binary search of
-- every block that the tree does not rule out, finds exactly those staged and loaded live entries
-- whose keys are in the bounds, in the order in which `Flush` sorted them; it reads no block out
-- of range. The sorted entries have ascending keys, and their keys and the lengths of their IDs
-- fit in 64 and 32 bits.
pub range-flush_numeric :
    (sorting : Sorting) (field : Str) (lo hi : ℕ) (n : NumericIndex)
    → fields_to_flush n ≡ field ∷ []
    → SortedFrom 0 (sort_entries sorting (live_entries field n))
    → All EntryFits (sort_entries sorting (live_entries field n))
    → range_encoded field lo hi (flush_numeric sorting n)
      ≡ some (
          map
            (λ e. e.doc_id)
            (keep (in_bounds lo hi) (sort_entries sorting (live_entries field n))))
unfolding flush_numeric flush_fields flush_field
range-flush_numeric sorting field lo hi n one s fits =
    let live = sort_entries sorting (live_entries field n) in
    let written = write_blocks (suc (length live)) field 0 live n.store in
    rw one (
      search-blocks field lo hi written.0 written.1 live n.roots n.field_types (
        write_blocks-Chain (suc (length live)) field 0 0 (last_value 0 live) live n.store
          (omega arith) s fits (omega arith)))
