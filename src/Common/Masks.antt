-- ===== src/Common/Masks.antt =====
-- C's operators on bit masks.
use Prim.Native.Nat.{ℕ, bit_and, bit_or, bit_xor}
use mathlib.Core.Bool.{Bool, not}
use libieee.Common.Tests.{◌==◌}

infixl 58 ◌∪◌
abbrev pub ◌∪◌ : ℕ → ℕ → ℕ
a ∪ b = bit_or a b

infixl 62 ◌∩◌
abbrev pub ◌∩◌ : ℕ → ℕ → ℕ
a ∩ b = bit_and a b

infixl 60 ◌⊖◌
abbrev pub ◌⊖◌ : ℕ → ℕ → ℕ
a ⊖ b = bit_xor a b

-- `(unsigned char) ~a`, of an `unsigned char`.
abbrev pub complement : ℕ → ℕ
complement a = bit_xor a 0xff

-- `a & b`, as a condition.
abbrev pub meets : ℕ → ℕ → Bool
meets a b = not (bit_and a b == 0)
