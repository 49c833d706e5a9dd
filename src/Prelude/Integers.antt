-- ===== src/Prelude/Integers.antt =====
-- Integers over the native numbers, and the casts of Rust's signed integers.
use Prim.Native.Nat.{ℕ, ◌+◌, ◌-◌, ◌%◌, ◌^◌, ◌<◌}
use mathlib.Core.Path.{◌≡◌}
use native.Mathlib.Omega.{arith}
use ballista.Prelude.Tests.{ltb, if◌then◌else◌}

-- `negsuc n` is -(n + 1).
pub data ℤ : Type 0 where
  pos : ℕ → ℤ
  negsuc : ℕ → ℤ

-- A value is in the range of a signed type of `half` values on either side of zero.
abbrev pub InRange : ℕ → ℤ → Type 0
InRange half (pos n) = n < half
InRange half (negsuc n) = n < half

-- The low bits of a two's complement number, read as a signed type of `half` values on either
-- side of zero.
abbrev pub signed_cast : ℕ → ℤ → ℤ
signed_cast half (pos n) =
    let r = n % (half + half) in if ltb r half then pos r else negsuc (half + half - 1 - r)
signed_cast half (negsuc n) =
    let r = n % (half + half) in if ltb r half then negsuc r else pos (half + half - 1 - r)

-- `as i8` and `as i16`.
unfoldable pub i8 : ℤ → ℤ
i8 n = signed_cast (2 ^ 7) n

unfoldable pub i16 : ℤ → ℤ
i16 n = signed_cast (2 ^ 15) n

pub i8_of_InRange : (n : ℤ) → InRange (2 ^ 7) n → i8 n ≡ n
unfolding i8
i8_of_InRange (pos n) h = ground arith
i8_of_InRange (negsuc n) h = ground arith

pub i16_of_InRange : (n : ℤ) → InRange (2 ^ 15) n → i16 n ≡ n
unfolding i16
i16_of_InRange (pos n) h = ground arith
i16_of_InRange (negsuc n) h = ground arith

pub i8-InRange : (n : ℤ) → InRange (2 ^ 7) (i8 n)
unfolding i8
i8-InRange (pos n) = ground arith
i8-InRange (negsuc n) = ground arith

pub i16-InRange : (n : ℤ) → InRange (2 ^ 15) (i16 n)
unfolding i16
i16-InRange (pos n) = ground arith
i16-InRange (negsuc n) = ground arith
