-- ===== src/Index/NumericBlock.antt =====
-- index/numeric.go: order-preserving uint64 keys of numbers, and the bytes of a block of entries.
use go_search.Base.{
  ℕ, zero, suc, ◌+◌, ◌-◌, ◌^◌, Option, none, some, List, [], ◌∷◌, ◌++◌, ltb, leb, if◌then◌else◌,
  length, take, drop, Str,
}
use go_search.Base.Bytes.{Bytes, uint32, put_uint32, get_uint32, put_uint64, get_uint64}
use go_search.Base.Int.{ℤ, pos, negsuc}

pub record NumericEntry : Type 0 where
  pub value : ℕ
  pub doc_id : Str

-- `x ^ 0x8000000000000000` and `x ^ 0xffffffffffffffff` of a uint64
unfoldable pub flip_sign : ℕ → ℕ
flip_sign u = if ltb u (2 ^ 63) then u + 2 ^ 63 else u - 2 ^ 63

unfoldable pub flip_all : ℕ → ℕ
flip_all u = 2 ^ 64 - 1 - u

-- The conversions between int64 and uint64
unfoldable pub to_uint64 : ℤ → ℕ
to_uint64 (pos n) = n
to_uint64 (negsuc n) = 2 ^ 64 - 1 - n

unfoldable pub to_int64 : ℕ → ℤ
to_int64 u = if ltb u (2 ^ 63) then pos u else negsuc (2 ^ 64 - 1 - u)

unfoldable pub encode_int64 : ℤ → ℕ
unfolding flip_sign to_uint64
encode_int64 v = flip_sign (to_uint64 v)

unfoldable pub decode_int64 : ℕ → ℤ
unfolding flip_sign to_int64
decode_int64 u = to_int64 (flip_sign u)

-- `EncodeFloat64` on the bits of a float64, and back to them
unfoldable pub encode_bits : ℕ → ℕ
unfolding flip_sign flip_all
encode_bits bits = if leb (2 ^ 63) bits then flip_all bits else flip_sign bits

unfoldable pub decode_bits : ℕ → ℕ
unfolding flip_sign flip_all
decode_bits u = if ltb u (2 ^ 63) then flip_all u else flip_sign u

unfoldable pub encode_entries : List NumericEntry → Bytes
unfolding put_uint64 put_uint32
encode_entries [] = []
encode_entries (entry ∷ entries) =
    put_uint64 entry.value
    ++ (put_uint32 (uint32 (length entry.doc_id)) ++ (entry.doc_id ++ encode_entries entries))

unfoldable pub encode_numeric_block : List NumericEntry → Bytes
unfolding encode_entries
encode_numeric_block entries = put_uint32 (uint32 (length entries)) ++ encode_entries entries

-- One round of the loop of `decodeNumericBlock`, given what the later rounds return.
abbrev pub decode_entry : ℕ → ℕ → Bytes → Option (List NumericEntry) → Option (List NumericEntry)
decode_entry value id_len data_left rest =
    if ltb (length data_left) id_len then none else elim rest [
      | none ↦ none
      | some entries ↦ some (record { value = value; doc_id = take id_len data_left } ∷ entries)
    ]

-- The loop of `decodeNumericBlock` on what is left of the data; `none` is an error.
unfoldable pub decode_entries : ℕ → Bytes → Option (List NumericEntry)
unfolding get_uint32 get_uint64
decode_entries zero data_left = some []
decode_entries (suc count) (a ∷ b ∷ c ∷ d ∷ e ∷ f ∷ g ∷ h ∷ i ∷ j ∷ k ∷ l ∷ data_left) =
    let id_len = get_uint32 i j k l in
    decode_entry (get_uint64 (get_uint32 a b c d) (get_uint32 e f g h)) id_len data_left
      (decode_entries count (drop id_len data_left))
decode_entries (suc count) _ = none

unfoldable pub decode_numeric_block : Bytes → Option (List NumericEntry)
unfolding decode_entries
decode_numeric_block (a ∷ b ∷ c ∷ d ∷ data_left) = decode_entries (get_uint32 a b c d) data_left
decode_numeric_block _ = none
