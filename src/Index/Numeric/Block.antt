-- ===== src/Index/Numeric/Block.antt =====
-- Encoding and decoding a block of index/numeric.go.
use go_search.Base.{
  ℕ, suc, ◌/◌, ◌%◌, ◌^◌, ◌<◌, ◌≡◌, refl, sym, ap, ◌∙◌, some, List, [], ◌∷◌, ◌++◌, length, drop, All,
  arith, length-append, take-append, drop-append, append_assoc, append-nil,
}
use go_search.Base.Bytes.{
  Bytes, uint32, put_uint32, get_uint32, put_uint64, get_uint64, get-put_uint32,
}
use go_search.Index.NumericBlock.{
  NumericEntry, encode_entries, encode_numeric_block, decode_entry, decode_entries,
  decode_numeric_block,
}

-- Entries that the format can hold.
pub record EntryFits (entry : NumericEntry) : Type 0 where
  pub value : entry.value < 2 ^ 64
  pub id_len : length entry.doc_id < 2 ^ 32

get-put_uint64 :
    (n : ℕ)
    → n < 2 ^ 64
    → get_uint64
        (get_uint32
          (n / 2 ^ 32 / 2 ^ 24 % 256)
          (n / 2 ^ 32 / 2 ^ 16 % 256)
          (n / 2 ^ 32 / 2 ^ 8 % 256)
          (n / 2 ^ 32 % 256))
        (get_uint32
          (n % 2 ^ 32 / 2 ^ 24 % 256)
          (n % 2 ^ 32 / 2 ^ 16 % 256)
          (n % 2 ^ 32 / 2 ^ 8 % 256)
          (n % 2 ^ 32 % 256))
      ≡ n
unfolding get_uint64
get-put_uint64 n h =
    omega
      (arith, get-put_uint32 (n / 2 ^ 32) (omega arith), get-put_uint32 (n % 2 ^ 32) (omega arith))

get_length :
    (n : ℕ)
    → n < 2 ^ 32
    → get_uint32
        (uint32 n / 2 ^ 24 % 256)
        (uint32 n / 2 ^ 16 % 256)
        (uint32 n / 2 ^ 8 % 256)
        (uint32 n % 256)
      ≡ n
get_length n h = get-put_uint32 (uint32 n) (omega arith) ∙ omega arith

decode-encode_entry :
    (entry : NumericEntry) (tail : Bytes) (count : ℕ)
    → EntryFits entry
    → decode_entries (suc count) (
        put_uint64 entry.value
        ++ (put_uint32 (uint32 (length entry.doc_id)) ++ (entry.doc_id ++ tail)))
      ≡ decode_entry entry.value
          (length entry.doc_id)
          (entry.doc_id ++ tail)
          (decode_entries count (drop (length entry.doc_id) (entry.doc_id ++ tail)))
unfolding decode_entries put_uint64 put_uint32
decode-encode_entry entry tail count fits = λ i.
    let left = entry.doc_id ++ tail in
    let id_len = get_length (length entry.doc_id) fits.id_len i in
    decode_entry (get-put_uint64 entry.value fits.value i) id_len left
      (decode_entries count (drop id_len left))

decode-encode_entries :
    (entries : List NumericEntry) (rest : Bytes)
    → All EntryFits entries
    → decode_entries (length entries) (encode_entries entries ++ rest) ≡ some entries
unfolding decode_entries encode_entries put_uint64 put_uint32
decode-encode_entries [] rest h = refl
decode-encode_entries (entry ∷ entries) rest (fits, h) =
    let id = entry.doc_id in
    let tail = encode_entries entries ++ rest in
    (λ i. decode_entries (suc (length entries)) (
      put_uint64 entry.value
      ++ (put_uint32 (uint32 (length id)) ++ append_assoc id (encode_entries entries) rest i)))
    ∙ decode-encode_entry entry tail (length entries) fits
    ∙ rw (drop-append id tail, decode-encode_entries entries rest h, take-append id tail)
        (ground (arith, length-append id tail))

-- Decoding a block gives the entries that were encoded, if keys fit in 64 bits, the lengths of the
-- IDs in 32, and the number of entries in 32.
pub decode-encode_numeric_block :
    (entries : List NumericEntry)
    → All EntryFits entries
    → length entries < 2 ^ 32
    → decode_numeric_block (encode_numeric_block entries) ≡ some entries
unfolding decode_numeric_block encode_numeric_block put_uint32
decode-encode_numeric_block entries h n =
    ap (λ k. decode_entries k (encode_entries entries)) (get_length (length entries) n)
    ∙ (ap (decode_entries (length entries)) (sym (append-nil (encode_entries entries)))
        ∙ decode-encode_entries entries [] h)
