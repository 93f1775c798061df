-- ===== src/Index/Numeric/Keys.antt =====
-- The keys of index/numeric.go keep the order of the numbers they encode.
use go_search.Base.{
  ℕ, ◌-◌, ◌^◌, ◌<◌, ◌≡◌, refl, ◌↔◌, Bool, true, ◌&&◌, Option, none, some, ltb, leb, if◌then◌else◌,
  arith,
}
use go_search.Base.Int.{ℤ, pos, negsuc}
use go_search.Index.Numeric.{in_bounds, low_bound, high_bound}
use go_search.Index.NumericBlock.{
  flip_sign, flip_all, to_uint64, to_int64, encode_int64, decode_int64, encode_bits, decode_bits,
  NumericEntry,
}

-- The range of an int64, and the order of integers.
abbrev pub IsInt64 : ℤ → Type 0
IsInt64 (pos n) = n < 2 ^ 63
IsInt64 (negsuc n) = n < 2 ^ 63

infix 4 ◌<ℤ◌
abbrev pub ◌<ℤ◌ : ℤ → ℤ → Type 0
pos m <ℤ pos n = m < n
pos m <ℤ negsuc n = ⊥
negsuc m <ℤ pos n = Unit
negsuc m <ℤ negsuc n = n < m

pub decode-encode_int64 :
    (v : ℤ) → IsInt64 v → (encode_int64 v < 2 ^ 64) × (decode_int64 (encode_int64 v) ≡ v)
unfolding encode_int64 decode_int64 flip_sign to_uint64 to_int64
decode-encode_int64 (pos n) h = (ground arith, ground arith)
decode-encode_int64 (negsuc n) h = (ground arith, ground arith)

pub encode_int64_lt :
    (v w : ℤ) → IsInt64 v → IsInt64 w → (encode_int64 v < encode_int64 w) ↔ (v <ℤ w)
unfolding encode_int64 flip_sign to_uint64
encode_int64_lt (pos m) (pos n) hv hw = ground arith
encode_int64_lt (pos m) (negsuc n) hv hw = ground arith
encode_int64_lt (negsuc m) (pos n) hv hw = ground arith
encode_int64_lt (negsuc m) (negsuc n) hv hw = ground arith

-- The number that the bits of a float64 stand for, up to a monotone scale: sign and magnitude, with
-- the negative zero below the positive one.
abbrev pub signed_magnitude : ℕ → ℤ
signed_magnitude bits = if ltb bits (2 ^ 63) then pos bits else negsuc (bits - 2 ^ 63)

-- The keys of two 64-bit patterns of float64 compare as the signed magnitudes that the patterns
-- stand for, but for the two zeros, of which the negative one comes first.
pub encode_bits_lt :
    (a b : ℕ)
    → a < 2 ^ 64
    → b < 2 ^ 64
    → (encode_bits a < encode_bits b) ↔ (signed_magnitude a <ℤ signed_magnitude b)
unfolding encode_bits flip_sign flip_all
encode_bits_lt a b ha hb = ground arith

pub decode-encode_bits :
    (a : ℕ) → a < 2 ^ 64 → (encode_bits a < 2 ^ 64) × (decode_bits (encode_bits a) ≡ a)
unfolding encode_bits decode_bits flip_sign flip_all
decode-encode_bits a h = (ground arith, ground arith)

-- The reference: what the bounds ask of a value. An exclusive bound replaces the inclusive one.
abbrev pub asked : Option ℕ → Option ℕ → Option ℕ → Option ℕ → ℕ → Bool
asked gte lte gt lt v =
    elim gt [ none ↦ elim gte [ none ↦ true | some b ↦ leb b v ] | some b ↦ ltb b v ]
    && elim lt [ none ↦ elim lte [ none ↦ true | some b ↦ leb v b ] | some b ↦ ltb v b ]

-- The exclusive bounds that do not wrap around.
abbrev pub BelowMax : Option ℕ → Type 0
BelowMax none = Unit
BelowMax (some b) = b < 2 ^ 64 - 1

abbrev pub Positive : Option ℕ → Type 0
Positive none = Unit
Positive (some b) = (0 < b) × (b < 2 ^ 64)

low_bound-leb :
    (gte gt : Option ℕ) (v : ℕ)
    → BelowMax gt
    → leb (low_bound gte gt) v
      ≡ elim gt [ none ↦ elim gte [ none ↦ true | some b ↦ leb b v ] | some b ↦ ltb b v ]
low_bound-leb none none v h = ground arith
low_bound-leb (some b) none v h = refl
low_bound-leb gte (some b) v h = ground arith

high_bound-leb :
    (lte lt : Option ℕ) (v : ℕ)
    → v < 2 ^ 64
    → Positive lt
    → leb v (high_bound lte lt)
      ≡ elim lt [ none ↦ elim lte [ none ↦ true | some b ↦ leb v b ] | some b ↦ ltb v b ]
high_bound-leb none none v hv h = ground arith
high_bound-leb (some b) none v hv h = refl
high_bound-leb lte (some b) v hv h = ground arith

-- A key is within the inclusive bounds that `Range` computes exactly when it meets the bounds
-- asked for, an exclusive one taking the place of an inclusive one on its side, provided that no
-- exclusive lower bound is the greatest key and no exclusive upper bound is 0, where the
-- computation wraps around.
pub in_bounds-asked :
    (gte lte gt lt : Option ℕ) (entry : NumericEntry)
    → entry.value < 2 ^ 64
    → BelowMax gt
    → Positive lt
    → in_bounds (low_bound gte gt) (high_bound lte lt) entry ≡ asked gte lte gt lt entry.value
in_bounds-asked gte lte gt lt entry hv hg hl =
    rw (low_bound-leb gte gt entry.value hg, high_bound-leb lte lt entry.value hv hl)
