-- ===== src/Common/Ints.antt =====
-- C's `int` as an integer, with the conversions that the code relies on.
use Prim.Native.Nat.{ℕ, zero, suc, ◌-◌, ◌%◌, ◌<◌}
use mathlib.Core.Bool.{Bool, true, false}
use native.Mathlib.Omega.{arith}

-- `negsuc n` is -(n + 1).
pub data ℤ : Type 0 where
  pos : ℕ → ℤ
  negsuc : ℕ → ℤ

-- `x != 0`, C's truth of an `int`.
abbrev pub truthy : ℤ → Bool
truthy (pos zero) = false
truthy (pos (suc n)) = true
truthy (negsuc n) = true

abbrev pub is_neg : ℤ → Bool
is_neg (pos n) = false
is_neg (negsuc n) = true

abbrev pub neg : ℤ → ℤ
neg (pos zero) = pos zero
neg (pos (suc n)) = negsuc n
neg (negsuc n) = pos (suc n)

-- A number that is known not to be negative.
abbrev pub nat_of : ℤ → ℕ
nat_of (pos n) = n
nat_of (negsuc n) = 0

-- `x + 1` and `x - 1`, inside the range of `int`.
abbrev pub incr : ℤ → ℤ
incr (pos n) = pos (suc n)
incr (negsuc zero) = pos zero
incr (negsuc (suc n)) = negsuc n

abbrev pub decr : ℤ → ℤ
decr (pos zero) = negsuc zero
decr (pos (suc n)) = pos n
decr (negsuc n) = negsuc (suc n)

-- `(unsigned char) x`; also what `x & mask` sees of `x` for a mask of eight bits.
abbrev pub to_byte : ℤ → ℕ
to_byte (pos n) = n % 256
to_byte (negsuc n) = 255 - n % 256

pub to_byte-lt : (x : ℤ) → to_byte x < 256
to_byte-lt (pos n) = omega arith
to_byte-lt (negsuc n) = omega arith

-- `x == -1`
abbrev pub is_minus_one : ℤ → Bool
is_minus_one (negsuc zero) = true
is_minus_one _ = false

-- `x == 1`
abbrev pub is_one : ℤ → Bool
is_one (pos (suc zero)) = true
is_one _ = false
