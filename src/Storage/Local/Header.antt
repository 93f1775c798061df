-- ===== src/Storage/Local/Header.antt =====
-- The record header of storage/local/local.go: one byte of type, two big-endian uint32 lengths.
use go_search.Base.{ℕ, ◌^◌, ◌<◌, ◌≡◌, refl, Option, none, some, ◌∷◌, ◌++◌, length}
use go_search.Base.Bytes.{Bytes, put_uint32, get_uint32, get-put_uint32}

abbrev pub header_size : ℕ
header_size = 9

abbrev pub type_put : ℕ
type_put = 1

abbrev pub type_delete : ℕ
type_delete = 2

pub record RecordHeader : Type 0 where
  pub type : ℕ
  pub key_len : ℕ
  pub val_len : ℕ

unfoldable pub encode_header : RecordHeader → Bytes
unfolding put_uint32
encode_header header = header.type ∷ (put_uint32 header.key_len ++ put_uint32 header.val_len)

-- `none` is the index panic on a buffer of fewer than nine bytes.
unfoldable pub decode_header : Bytes → Option RecordHeader
unfolding get_uint32
decode_header (t ∷ a ∷ b ∷ c ∷ d ∷ e ∷ f ∷ g ∷ h ∷ rest) =
    some (record { type = t; key_len = get_uint32 a b c d; val_len = get_uint32 e f g h })
decode_header _ = none

pub length-encode_header : (header : RecordHeader) → length (encode_header header) ≡ header_size
unfolding encode_header
length-encode_header header = refl

-- Decoding undoes encoding, whatever bytes follow, for lengths that fit in 32 bits.
pub decode-encode_header :
    (header : RecordHeader) (rest : Bytes)
    → header.key_len < 2 ^ 32
    → header.val_len < 2 ^ 32
    → decode_header (encode_header header ++ rest) ≡ some header
unfolding encode_header decode_header
decode-encode_header header rest hk hv = λ i. some (record {
  type = header.type;
  key_len = get-put_uint32 header.key_len hk i;
  val_len = get-put_uint32 header.val_len hv i;
})
