-- ===== src/Base/Bytes.antt =====
-- Package encoding/binary in big-endian order, on bytes as naturals below 256.
use Prim.Native.Nat.{ℕ, ◌+◌, ◌*◌, ◌/◌, ◌%◌, ◌^◌, ◌<◌}
use mathlib.Core.Path.{◌≡◌}
use mathlib.Core.List.{List, [], ◌∷◌, ◌++◌}
use native.Mathlib.Omega.{arith}

abbrev pub Bytes : Type 0
Bytes = List ℕ

-- The conversion `uint32(n)`.
abbrev pub uint32 : ℕ → ℕ
uint32 n = n % 2 ^ 32

-- `binary.BigEndian.PutUint32` and `binary.BigEndian.Uint32`
unfoldable pub put_uint32 : ℕ → Bytes
put_uint32 n = (n / 2 ^ 24 % 256) ∷ (n / 2 ^ 16 % 256) ∷ (n / 2 ^ 8 % 256) ∷ (n % 256) ∷ []

unfoldable pub get_uint32 : ℕ → ℕ → ℕ → ℕ → ℕ
get_uint32 a b c d = a * 2 ^ 24 + b * 2 ^ 16 + c * 2 ^ 8 + d

-- `PutUint64`: the bytes of the high half, then of the low half.
unfoldable pub put_uint64 : ℕ → Bytes
unfolding put_uint32
put_uint64 n = put_uint32 (n / 2 ^ 32) ++ put_uint32 (n % 2 ^ 32)

unfoldable pub get_uint64 : ℕ → ℕ → ℕ
get_uint64 high low = high * 2 ^ 32 + low

pub get-put_uint32 :
    (n : ℕ)
    → n < 2 ^ 32
    → get_uint32 (n / 2 ^ 24 % 256) (n / 2 ^ 16 % 256) (n / 2 ^ 8 % 256) (n % 256) ≡ n
unfolding get_uint32
get-put_uint32 n h = omega arith
