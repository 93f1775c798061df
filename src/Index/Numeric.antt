-- ===== src/Index/Numeric.antt =====
-- index/numeric.go: numeric values as order-preserving uint64 keys, in sorted blocks of the storage,
-- with a tree of the blocks' bounds in memory. The storage is a map (storage/memory/memory.go).
pub mod Keys
pub mod Block
pub mod Bisect
pub mod Tree
pub mod Build
pub mod Flush
use go_search.Base.{
  ℕ, zero, suc, ◌+◌, ◌-◌, ◌*◌, ◌/◌, ◌%◌, ◌^◌, Bool, true, false, ◌&&◌, ◌||◌, not, Option, none,
  some, List, [], ◌∷◌, ◌++◌, map, ltb, leb, ◌==◌, if◌then◌else◌, length, take, drop, get_elem?, Str,
  codes, keep,
}
use go_search.Base.Bytes.{Bytes, uint32, put_uint32, get_uint32, put_uint64, get_uint64}
use go_search.Base.Decimal.{decimal}
use go_search.Base.Int.{ℤ, pos, negsuc}
use go_search.Base.Map.{Map, lookup, lookup_or, insert, has, keys, StrSet}
use go_search.Index.KdTree.{Sorting, add_keys}
use go_search.Index.NumericBlock.{
  NumericEntry, decode_bits, decode_entries, decode_entry, decode_int64, decode_numeric_block,
  encode_bits, encode_entries, encode_int64, encode_numeric_block, flip_all, flip_sign, to_int64,
  to_uint64,
}

abbrev pub block_size : ℕ
block_size = 512

-- `minEncoded`, `maxEncoded`, and the block's key or the two subtrees.
pub data BkdNode : Type 0 where
  leaf : ℕ → ℕ → Str → BkdNode
  inner : ℕ → ℕ → BkdNode → BkdNode → BkdNode

abbrev pub min_encoded : BkdNode → ℕ
min_encoded (leaf low high key) = low
min_encoded (inner low high left right) = low

abbrev pub max_encoded : BkdNode → ℕ
max_encoded (leaf low high key) = high
max_encoded (inner low high left right) = high

pub data NumberType : Type 0 where
  float int : NumberType

pub record NumericIndex : Type 0 where
  pub roots : Map (Option BkdNode)
  pub buffer : Map (List NumericEntry)
  pub deleted : StrSet
  pub field_types : Map NumberType
  pub store : Map Bytes

abbrev pub new_numeric_index : Map Bytes → NumericIndex
new_numeric_index store = record {
  roots = [];
  buffer = [];
  deleted = [];
  field_types = [];
  store = store;
}

unfoldable pub load_block : Map Bytes → Str → List NumericEntry
unfolding decode_numeric_block
load_block store key = elim (lookup key store) [
  | none ↦ []
  | some block_data ↦ elim (decode_numeric_block block_data) [ none ↦ [] | some entries ↦ entries ]
]

unfoldable pub load_entries_below : Map Bytes → BkdNode → List NumericEntry
unfolding load_block
load_entries_below store (leaf low high key) = load_block store key
load_entries_below store (inner low high left right) =
    load_entries_below store left ++ load_entries_below store right

unfoldable pub load_all_entries : Str → NumericIndex → List NumericEntry
unfolding load_entries_below
load_all_entries field n = elim (lookup_or none field n.roots) [
  | none ↦ []
  | some root ↦ load_entries_below n.store root
]

-- `buildTree`: each level halves the leaves, so as many levels as leaves are enough.
unfoldable pub build_tree : ℕ → List BkdNode → Option BkdNode
build_tree zero leaves = none
build_tree (suc fuel) [] = none
build_tree (suc fuel) (n ∷ []) = some n
build_tree (suc fuel) (n ∷ m ∷ leaves) =
    let mid = length (n ∷ m ∷ leaves) / 2 in
    elim (build_tree fuel (take mid (n ∷ m ∷ leaves))) [
      | none ↦ none
      | some left ↦ elim (build_tree fuel (drop mid (n ∷ m ∷ leaves))) [
        | none ↦ none
        | some right ↦ some (inner (min_encoded left) (max_encoded right) left right)
      ]
    ]

-- `fmt.Sprintf("_numblock:%s:%d", field, i)`
unfoldable pub block_key : Str → ℕ → Str
block_key field i = codes "_numblock:" ++ (field ++ (b':' ∷ decimal i))

abbrev pub last_value : ℕ → List NumericEntry → ℕ
last_value v [] = v
last_value v (entry ∷ entries) = last_value entry.value entries

-- The loop of `Flush` over the blocks: the store, and the leaves in order. Each block takes one
-- entry at least, so as many rounds as entries are enough.
unfoldable pub write_blocks : ℕ → Str → ℕ → List NumericEntry → Map Bytes → Map Bytes × List BkdNode
unfolding encode_numeric_block block_key
write_blocks zero field i live store = (store, [])
write_blocks (suc fuel) field i [] store = (store, [])
write_blocks (suc fuel) field i (entry ∷ entries) store =
    let block = take block_size (entry ∷ entries) in
    let key = block_key field i in
    let (store', leaves) =
      write_blocks fuel field (i + 1) (drop block_size (entry ∷ entries))
        (insert key (encode_numeric_block block) store) in
    (store', leaf entry.value (last_value entry.value block) key ∷ leaves)

abbrev pub sort_entries : Sorting → List NumericEntry → List NumericEntry
sort_entries sorting = sorting.slice (λ a b. ltb a.value b.value)

abbrev pub live_entries : Str → NumericIndex → List NumericEntry
live_entries field n =
    keep (λ e. not (has e.doc_id n.deleted))
      (load_all_entries field n ++ lookup_or [] field n.buffer)

-- One round of the loop of `Flush` over the fields.
unfoldable pub flush_field : Sorting → Str → NumericIndex → NumericIndex
unfolding write_blocks build_tree load_all_entries
flush_field sorting field n =
    let live = sort_entries sorting (live_entries field n) in
    let (store, leaves) = write_blocks (suc (length live)) field 0 live n.store in
    record n {
      store = store;
      roots = insert field (build_tree (suc (length leaves)) leaves) n.roots;
    }

unfoldable pub flush_fields : Sorting → List Str → NumericIndex → NumericIndex
unfolding flush_field
flush_fields sorting [] n = n
flush_fields sorting (field ∷ fields) n = flush_fields sorting fields (flush_field sorting field n)

-- The set of fields that `Flush` collects, and the whole of `Flush`.
unfoldable pub fields_to_flush : NumericIndex → List Str
unfolding add_keys
fields_to_flush n =
    let buffered = add_keys n.buffer [] in
    keys (if length n.deleted == 0 then buffered else add_keys n.roots buffered)

unfoldable pub flush_numeric : Sorting → NumericIndex → NumericIndex
unfolding flush_fields fields_to_flush
flush_numeric sorting n = record (flush_fields sorting (fields_to_flush n) n) {
  buffer = [];
  deleted = [];
}

abbrev pub stage : NumberType → Str → NumericEntry → NumericIndex → NumericIndex
stage type field entry n = record n {
  field_types = insert field type n.field_types;
  buffer = insert field (lookup_or [] field n.buffer ++ (entry ∷ [])) n.buffer;
}

-- `AddFloat`, given the bits of the number, `AddInt` and `Delete`
unfoldable pub add_float : Str → Str → ℕ → NumericIndex → NumericIndex
unfolding encode_bits
add_float field doc_id bits =
    stage float field (record { value = encode_bits bits; doc_id = doc_id })

unfoldable pub add_int : Str → Str → ℤ → NumericIndex → NumericIndex
unfolding encode_int64
add_int field doc_id v = stage int field (record { value = encode_int64 v; doc_id = doc_id })

unfoldable pub delete_value : Str → NumericIndex → NumericIndex
delete_value doc_id n = record n { deleted = insert doc_id tt n.deleted }

-- The binary search of a block: from `left` up to `hi`, one more than the `right` of the source.
-- `none` is an index out of range.
unfoldable pub search_left : ℕ → ℕ → List NumericEntry → ℕ → ℕ → Option ℕ
search_left zero low entries left hi = some left
search_left (suc fuel) low entries left hi =
    let mid = (left + (hi - 1)) / 2 in
    if ltb left hi
    then elim (get_elem? entries mid) [
      | none ↦ none
      | some entry ↦
          search_left fuel low entries (if ltb entry.value low then mid + 1 else left)
            (if ltb entry.value low then hi else mid)
    ]
    else some left

-- The loop after it: up to the first value above the bound.
unfoldable pub take_upto : ℕ → List NumericEntry → List NumericEntry
take_upto high [] = []
take_upto high (entry ∷ entries) =
    let rest = take_upto high entries in if leb entry.value high then entry ∷ rest else []

abbrev pub live_ids : StrSet → List NumericEntry → List Str
live_ids deleted entries = map (λ e. e.doc_id) (keep (λ e. not (has e.doc_id deleted)) entries)

unfoldable pub search_block : StrSet → List NumericEntry → ℕ → ℕ → Option (List Str)
unfolding search_left take_upto
search_block deleted entries low high =
    elim (search_left (suc (length entries)) low entries 0 (length entries)) [
      | none ↦ none
      | some left ↦ some (live_ids deleted (take_upto high (drop left entries)))
    ]

abbrev pub both : Option (List Str) → Option (List Str) → Option (List Str)
both none b = none
both (some a) none = none
both (some a) (some b) = some (a ++ b)

unfoldable pub search_tree : Map Bytes → StrSet → BkdNode → ℕ → ℕ → Option (List Str)
unfolding search_block load_block
search_tree store deleted (leaf low high key) lo hi =
    if ltb high lo || ltb hi low then some [] else search_block deleted (load_block store key) lo hi
search_tree store deleted (inner low high left right) lo hi =
    let below =
      both (search_tree store deleted left lo hi) (search_tree store deleted right lo hi) in
    if ltb high lo || ltb hi low then some [] else below

-- The bounds of `Range`, given the encoded ones: `+ 1` and `- 1` wrap around.
abbrev pub low_bound : Option ℕ → Option ℕ → ℕ
low_bound gte none = elim gte [ none ↦ 0 | some b ↦ b ]
low_bound gte (some b) = (b + 1) % 2 ^ 64

abbrev pub high_bound : Option ℕ → Option ℕ → ℕ
high_bound lte none = elim lte [ none ↦ 2 ^ 64 - 1 | some b ↦ b ]
high_bound lte (some b) = (b + (2 ^ 64 - 1)) % 2 ^ 64

abbrev pub in_bounds : ℕ → ℕ → NumericEntry → Bool
in_bounds lo hi e = leb lo e.value && leb e.value hi

-- What `Range` finds in the buffer.
unfoldable pub search_buffer : StrSet → List NumericEntry → ℕ → ℕ → List Str
search_buffer deleted [] lo hi = []
search_buffer deleted (entry ∷ entries) lo hi =
    let rest = search_buffer deleted entries lo hi in
    if not (has entry.doc_id deleted) && in_bounds lo hi entry then entry.doc_id ∷ rest else rest

-- `Range` on encoded bounds; `encodeBound` encodes them by the field's type.
unfoldable pub range_encoded : Str → ℕ → ℕ → NumericIndex → Option (List Str)
unfolding search_tree search_buffer
range_encoded field lo hi n =
    both
      (elim (lookup_or none field n.roots) [
        | none ↦ some []
        | some root ↦ search_tree n.store n.deleted root lo hi
      ])
      (some (search_buffer n.deleted (lookup_or [] field n.buffer) lo hi))

unfoldable pub range_numeric :
    {F : Type 0}
    → (F → ℕ)
    → (F → ℤ)
    → Str
    → Option F
    → Option F
    → Option F
    → Option F
    → NumericIndex
    → Option (List Str)
unfolding range_encoded encode_bits encode_int64
range_numeric {F} bits truncate field gte lte gt lt n =
    let encode : F → ℕ = λ v. elim (lookup field n.field_types) [
      | some int ↦ encode_int64 (truncate v)
      | _ ↦ encode_bits (bits v)
    ] in
    let under : Option F → Option ℕ = λ o. elim o [ none ↦ none | some v ↦ some (encode v) ] in
    range_encoded field (low_bound (under gte) (under gt)) (high_bound (under lte) (under lt)) n
