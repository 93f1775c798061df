-- ===== src/Storage/Local/Record.antt =====
-- One record of the log of storage/local/local.go, and reading it back at its offset.
use go_search.Base.{
  ℕ, suc, zero, ◌+◌, ◌≤◌, ◌<◌, ◌^◌, ◌≡◌, refl, sym, ap, ◌∙◌, some, List, [], ◌∷◌, ◌++◌, append-nil,
  arith, length, take, drop, Str, length-append, length-drop, take_of_le, drop-append, take-length,
}
use go_search.Storage.Local.{
  Bytes, header_size, encode_header, decode_header, uint32, put_header, delete_header,
  decode-encode_header, length-encode_header, read_at, found, get_buf, value_of, RecordHeader,
  type_put, type_delete,
}

-- Keys and values whose lengths the header can hold.
abbrev pub Fits : Str → Bytes → Type 0
Fits key value = (length key < 2 ^ 32) × (length value < 2 ^ 32)

abbrev pub put_record : Str → Bytes → Bytes
put_record key value = put_header key value ++ (key ++ value)

abbrev pub delete_record : Str → Bytes
delete_record key = delete_header key ++ key

pub length-put_record :
    (key : Str) (value : Bytes)
    → length (put_record key value) ≡ header_size + length key + length value
length-put_record key value = omega (
  arith,
  length-append (put_header key value) (key ++ value),
  length-append key value,
  length-encode_header
      (record { type = type_put; key_len = uint32 (length key); val_len = uint32 (length value) }),
)

pub length-delete_record : (key : Str) → length (delete_record key) ≡ header_size + length key
length-delete_record key = omega (
  arith,
  length-append (delete_header key) key,
  length-encode_header (record { type = type_delete; key_len = uint32 (length key); val_len = 0 }),
)

uint32_of_lt : (n : ℕ) → n < 2 ^ 32 → uint32 n ≡ n
uint32_of_lt n h = omega arith

-- The header of a record, decoded, whatever follows.
pub decode-put_header :
    (key : Str) (value rest : Bytes)
    → Fits key value
    → decode_header (put_header key value ++ rest)
      ≡ some (record { type = type_put; key_len = length key; val_len = length value })
decode-put_header key value rest (hk, hv) =
    decode-encode_header _ rest (omega arith) (omega arith) ∙ (λ i. some (record {
      type = type_put;
      key_len = uint32_of_lt (length key) hk i;
      val_len = uint32_of_lt (length value) hv i;
    }))

pub decode-delete_header :
    (key : Str) (rest : Bytes)
    → length key < 2 ^ 32
    → decode_header (delete_header key ++ rest)
      ≡ some (record { type = type_delete; key_len = length key; val_len = 0 })
decode-delete_header key rest hk = decode-encode_header _ rest (omega arith) (omega arith) ∙ (λ i.
    some (record { type = type_delete; key_len = uint32_of_lt (length key) hk i; val_len = 0 }))

-- The first nine bytes of a buffer that begins with a header are that header.
pub take-header :
    (header : RecordHeader) (rest : Bytes)
    → take header_size (encode_header header ++ rest) ≡ encode_header header
unfolding encode_header
take-header header rest = refl

pub drop-header :
    (header : RecordHeader) (rest : Bytes) → drop header_size (encode_header header ++ rest) ≡ rest
unfolding encode_header
drop-header header rest = refl

drop_nil : (n : ℕ) → drop {A = ℕ} n [] ≡ []
drop_nil zero = refl
drop_nil (suc n) = refl

drop_add : (m n : ℕ) (xs : Bytes) → drop (m + n) xs ≡ drop n (drop m xs)
drop_add zero n xs = ap (λ (k : ℕ). drop k xs) (omega arith)
drop_add (suc m) n [] = drop_nil (suc m + n) ∙ sym (drop_nil n)
drop_add (suc m) n (x ∷ xs) =
    let e : suc m + n ≡ suc (m + n) = omega arith in rw e (drop_add m n xs)

get_buf_of :
    (buf : Bytes) (header : RecordHeader)
    → decode_header (take header_size buf) ≡ some header
    → get_buf buf ≡ value_of header buf
unfolding get_buf
get_buf_of buf header h = rw (h, get_buf)

decode_first :
    (key : Str) (value rest : Bytes)
    → Fits key value
    → decode_header (take header_size (put_header key value ++ rest))
      ≡ some (record { type = type_put; key_len = length key; val_len = length value })
decode_first key value rest fits =
    ap decode_header (take-header _ rest ∙ sym (append-nil (put_header key value)))
    ∙ decode-put_header key value [] fits

drop_to_value :
    (key : Str) (value : Bytes) → drop (header_size + length key) (put_record key value) ≡ value
drop_to_value key value =
    drop_add header_size (length key) (put_record key value)
    ∙ ap (drop (length key)) (drop-header _ (key ++ value))
    ∙ drop-append key value

-- Reading a whole record gives its value.
pub get_buf-put_record :
    (key : Str) (value : Bytes) → Fits key value → get_buf (put_record key value) ≡ found value
get_buf-put_record key value fits =
    get_buf_of _ _ (decode_first key value (key ++ value) fits)
    ∙ (unfold value_of in
        ground (arith, length-put_record key value, drop_to_value key value, take-length value))

take-append_le {ℓ} :
    {A : Type ℓ} (n : ℕ) (xs ys : List A) → n ≤ length xs → take n (xs ++ ys) ≡ take n xs
take-append_le zero xs ys h = refl
take-append_le (suc n) [] ys h = absurd (omega arith)
take-append_le {A} (suc n) (x ∷ xs) ys h =
    ap (λ (t : List A). x ∷ t) (take-append_le n xs ys (omega arith))

drop-append_le {ℓ} :
    {A : Type ℓ} (n : ℕ) (xs ys : List A) → n ≤ length xs → drop n (xs ++ ys) ≡ drop n xs ++ ys
drop-append_le zero xs ys h = refl
drop-append_le (suc n) [] ys h = absurd (omega arith)
drop-append_le (suc n) (x ∷ xs) ys h = drop-append_le n xs ys (omega arith)

slice-append :
    (file more : Bytes) (offset n : ℕ)
    → offset + n ≤ length file
    → take n (drop offset (file ++ more)) ≡ take n (drop offset file)
slice-append file more offset n h =
    ap (take n) (drop-append_le offset file more (omega arith))
    ∙ take-append_le n (drop offset file) more (omega (arith, length-drop offset file))

-- A read inside the file is not disturbed by what is appended.
pub read_at-append :
    (file more : Bytes) (offset n : ℕ) {b : Bytes}
    → read_at file offset n ≡ some b
    → read_at (file ++ more) offset n ≡ some b
unfolding read_at
read_at-append file more offset n h =
    ground (arith, slice-append file more offset n, length-append file more)

-- What was appended is read back at the old end of the file.
pub read_at_end :
    (file b : Bytes) (n : ℕ) → length b ≡ n → read_at (file ++ b) (length file) n ≡ some b
unfolding read_at
read_at_end file b n e = ground (arith, drop-append file b, length-append file b, take_of_le n b)
