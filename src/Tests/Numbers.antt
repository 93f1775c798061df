-- ===== src/Tests/Numbers.antt =====
-- index/numeric.go on concrete inputs.
use go_search.Base.{
  ◌+◌, ◌≡◌, ◌<◌, ◌^◌, ◌↔◌, refl, some, none, List, [], ◌∷◌, codes, map, keep, All, same, arith,
}
use go_search.Base.Map.{lookup, insert}
use go_search.Index.KdTree.{add_keys}
use go_search.Index.Numeric.{
  NumericIndex, new_numeric_index, flush_numeric, range_encoded, sort_entries, live_entries,
  in_bounds, low_bound, high_bound, fields_to_flush, load_all_entries,
}
use go_search.Index.NumericBlock.{
  NumericEntry, encode_bits, encode_numeric_block, decode_numeric_block,
}
use go_search.Index.Numeric.Keys.{encode_bits_lt, in_bounds-asked, asked, signed_magnitude, ◌<ℤ◌}
use go_search.Index.Numeric.Bisect.{SortedFrom}
use go_search.Index.Numeric.Block.{EntryFits, decode-encode_numeric_block}
use go_search.Index.Numeric.Flush.{range-flush_numeric}
use go_search.Tests.Sorters.{insertion, sort_items, place}

abbrev small : List NumericEntry
small =
    record { value = 300; doc_id = codes "a" } ∷ record { value = 70000; doc_id = codes "bc" } ∷ []

decode-encode_numeric_block_example : decode_numeric_block (encode_numeric_block small) ≡ some small
decode-encode_numeric_block_example =
    decode-encode_numeric_block small
      (
        record { value = omega arith; id_len = omega arith },
        (record { value = omega arith; id_len = omega arith }, tt),
      )
      (omega arith)

encode_bits_lt_example :
    (encode_bits (2 ^ 63 + 1) < encode_bits 7)
    ↔ (signed_magnitude (2 ^ 63 + 1) <ℤ signed_magnitude 7)
encode_bits_lt_example = encode_bits_lt (2 ^ 63 + 1) 7 (omega arith) (omega arith)

abbrev seven : NumericEntry
seven = record { value = 7; doc_id = codes "a" }

in_bounds-asked_example :
    in_bounds (low_bound none (some 3)) (high_bound (some 7) none) seven
    ≡ asked none (some 7) (some 3) none 7
in_bounds-asked_example =
    in_bounds-asked none (some 7) (some 3) none seven (omega arith) (omega arith) tt

-- Two prices in the buffer, the greater one first.
abbrev prices : NumericIndex
prices = record (new_numeric_index []) {
  buffer =
      (
        codes "price",
        record { value = 9; doc_id = codes "a" } ∷ record { value = 5; doc_id = codes "b" } ∷ [],
      )
      ∷ [];
}

one_field : fields_to_flush prices ≡ codes "price" ∷ []
unfolding fields_to_flush add_keys insert
one_field = refl

sorted :
    sort_entries insertion (live_entries (codes "price") prices)
    ≡ record { value = 5; doc_id = codes "b" } ∷ record { value = 9; doc_id = codes "a" } ∷ []
unfolding sort_items place keep lookup load_all_entries same
sorted = refl

in_order : SortedFrom 0 (sort_entries insertion (live_entries (codes "price") prices))
in_order = rw sorted (omega arith)

prices_fit : All EntryFits (sort_entries insertion (live_entries (codes "price") prices))
prices_fit = rw sorted (
  record { value = omega arith; id_len = omega arith },
  (record { value = omega arith; id_len = omega arith }, tt),
)

range-flush_numeric_example :
    range_encoded (codes "price") 6 10 (flush_numeric insertion prices)
    ≡ some (
        map
          (λ e. e.doc_id)
          (keep (in_bounds 6 10) (sort_entries insertion (live_entries (codes "price") prices))))
range-flush_numeric_example =
    range-flush_numeric insertion (codes "price") 6 10 prices one_field in_order prices_fit
