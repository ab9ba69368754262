-- ===== src/Prelude/Words.antt =====
-- Bytes in a packet, and big-endian words: `binary.BigEndian` of the source.
use Prim.Native.Nat.{ℕ, ◌+◌, ◌*◌, ◌/◌, ◌%◌, ◌^◌, ◌<◌}
use mathlib.Core.List.{List, [], ◌∷◌, ◌++◌}
use mathlib.Core.Path.{◌≡◌}
use native.Mathlib.Omega.{arith}
use zeropentime.Prelude.Lists.{get_or}

-- The code reads an index only behind a test of the length.
abbrev pub byte_at : List ℕ → ℕ → ℕ
byte_at b i = get_or b i 0

abbrev pub u16_at : List ℕ → ℕ → ℕ
u16_at b i = byte_at b i * 256 + byte_at b (i + 1)

abbrev pub u32_at : List ℕ → ℕ → ℕ
u32_at b i = u16_at b i * 2 ^ 16 + u16_at b (i + 2)

-- The bytes that `PutUint16` and `PutUint32` write.
abbrev pub put_u16 : ℕ → List ℕ
put_u16 n = n / 256 % 256 ∷ n % 256 ∷ []

abbrev pub put_u32 : ℕ → List ℕ
put_u32 n = n / 2 ^ 24 % 256 ∷ n / 2 ^ 16 % 256 ∷ n / 256 % 256 ∷ n % 256 ∷ []

pub u16_at-put_u16 : (n : ℕ) → n < 2 ^ 16 → u16_at (put_u16 n) 0 ≡ n
u16_at-put_u16 n h = omega arith

pub u32_at-put_u32 : (n : ℕ) → n < 2 ^ 32 → u32_at (put_u32 n) 0 ≡ n
u32_at-put_u32 n h = omega arith

abbrev pub u128_at : List ℕ → ℕ → ℕ
u128_at b i =
    u32_at b i * 2 ^ 96 + u32_at b (i + 4) * 2 ^ 64 + u32_at b (i + 8) * 2 ^ 32 + u32_at b (i + 12)

abbrev pub put_u128 : ℕ → List ℕ
put_u128 n = put_u32 (n / 2 ^ 96) ++ put_u32 (n / 2 ^ 64) ++ put_u32 (n / 2 ^ 32) ++ put_u32 n

word_of : (n : ℕ) → u32_at (put_u32 n) 0 ≡ n % 2 ^ 32
word_of n = omega arith

pub u128_at-put_u128 : (n : ℕ) → n < 2 ^ 128 → u128_at (put_u128 n) 0 ≡ n
u128_at-put_u128 n h =
    omega (arith, word_of (n / 2 ^ 96), word_of (n / 2 ^ 64), word_of (n / 2 ^ 32), word_of n)
