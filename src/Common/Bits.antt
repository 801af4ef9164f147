-- ===== src/Common/Bits.antt =====
-- `bit_and`, `bit_or` and `bit_xor` at variables, by way of single bits: a bit of the result is
-- the same operation on the two bits, and numbers with equal bits are equal. A bitwise law then is
-- a law of Booleans.
use Prim.Native.Nat.{
  ℕ, zero, suc, ◌+◌, ◌*◌, ◌/◌, ◌%◌, ◌≤◌, min, max, bit_and, bit_or, bit_xor, digits, differ,
  bit_and-bitwise, bit_or-bitwise, bit_xor-bitwise,
}
use mathlib.Core.Path.{◌≡◌, refl, ◌∙◌}
use mathlib.Core.Bool.{Bool, true, false, not, ◌&&◌, ◌||◌}
use native.Mathlib.Omega.{arith}
use libieee.Common.Tests.{◌==◌}

-- The recursion on digits that the native operations stand for gives the same with any fuel that
-- is enough.
module _ (tail : ℕ → ℕ) (f : ℕ → ℕ → ℕ) where
  fuel-eq : (n m a b : ℕ) → a ≤ n → a ≤ m → digits tail f n a b ≡ digits tail f m a b
  fuel-eq zero zero a b p q = refl
  fuel-eq (suc n) (suc m) (suc a) b p q =
      omega (arith, fuel-eq n m (suc a / 2) (b / 2) (omega arith) (omega arith))
  fuel-eq zero _ (suc a) b p q = absurd (omega arith)
  fuel-eq _ zero (suc a) b p q = absurd (omega arith)
  fuel-eq zero (suc m) zero b p q = refl
  fuel-eq (suc n) zero zero b p q = refl
  fuel-eq (suc n) (suc m) zero b p q = refl

  lowest_digit :
      (a b : ℕ)
      → digits tail f (suc a) (suc a) b
        ≡ digits tail f (suc a / 2) (suc a / 2) (b / 2) * 2 + f (suc a % 2) (b % 2)
  lowest_digit a b =
      omega (arith, fuel-eq a (suc a / 2) (suc a / 2) (b / 2) (omega arith) (omega arith))

bit_and-half : (a b : ℕ) → bit_and a b ≡ bit_and (a / 2) (b / 2) * 2 + min (a % 2) (b % 2)
bit_and-half zero b = simp bit_and-bitwise (omega arith)
bit_and-half (suc a) b = simp bit_and-bitwise (lowest_digit (λ _. 0) min a b)

bit_or-half : (a b : ℕ) → bit_or a b ≡ bit_or (a / 2) (b / 2) * 2 + max (a % 2) (b % 2)
bit_or-half zero b = simp bit_or-bitwise (omega arith)
bit_or-half (suc a) b = simp bit_or-bitwise (lowest_digit (λ y. y) max a b)

bit_xor-half : (a b : ℕ) → bit_xor a b ≡ bit_xor (a / 2) (b / 2) * 2 + differ (a % 2) (b % 2)
bit_xor-half zero b = simp bit_xor-bitwise (omega arith)
bit_xor-half (suc a) b = simp bit_xor-bitwise (lowest_digit (λ y. y) differ a b)

-- Bit `k` of a number.
unfoldable pub bit : ℕ → ℕ → Bool
bit zero a = a % 2 == 1
bit (suc k) a = bit k (a / 2)

abbrev pub unlike : Bool → Bool → Bool
unlike true b = not b
unlike false b = b

module _ (x y : ℕ) (x_digit : x ≤ 1) (y_digit : y ≤ 1) where
  min_digits : (min x y == 1) ≡ ((x == 1) && (y == 1))
  min_digits = ground arith

  max_digits : (max x y == 1) ≡ ((x == 1) || (y == 1))
  max_digits = ground arith

differ_digits : (x y : ℕ) → x ≤ 1 → y ≤ 1 → (differ x y == 1) ≡ unlike (x == 1) (y == 1)
differ_digits zero zero p q = refl
differ_digits zero (suc zero) p q = refl
differ_digits (suc zero) zero p q = refl
differ_digits (suc zero) (suc zero) p q = refl
differ_digits _ (suc (suc y)) p q = absurd (omega arith)
differ_digits (suc (suc x)) _ p q = absurd (omega arith)

differ-le : (x y : ℕ) → x ≤ 1 → y ≤ 1 → differ x y ≤ 1
differ-le zero y p q = q
differ-le (suc x) zero p q = p
differ-le (suc x) (suc y) p q = differ-le x y (omega arith) (omega arith)

-- A number `q * 2 + d` has the bit `d` below those of `q`.
bit_lowest : (a q d : ℕ) → a ≡ q * 2 + d → d ≤ 1 → bit 0 a ≡ (d == 1)
unfolding bit
bit_lowest a q d e h = rw e (ground arith)

bit_higher : (k a q d : ℕ) → a ≡ q * 2 + d → d ≤ 1 → bit (suc k) a ≡ bit k q
unfolding bit
bit_higher k a q d e h = let f : a / 2 ≡ q = omega arith in rw f

pub bit-bit_and : (k a b : ℕ) → bit k (bit_and a b) ≡ (bit k a && bit k b)
unfolding bit
bit-bit_and zero a b =
    bit_lowest _ _ _ (bit_and-half a b) (omega arith)
    ∙ min_digits (a % 2) (b % 2) (omega arith) (omega arith)
bit-bit_and (suc k) a b =
    bit_higher k _ _ _ (bit_and-half a b) (omega arith) ∙ bit-bit_and k (a / 2) (b / 2)

pub bit-bit_or : (k a b : ℕ) → bit k (bit_or a b) ≡ (bit k a || bit k b)
unfolding bit
bit-bit_or zero a b =
    bit_lowest _ _ _ (bit_or-half a b) (omega arith)
    ∙ max_digits (a % 2) (b % 2) (omega arith) (omega arith)
bit-bit_or (suc k) a b =
    bit_higher k _ _ _ (bit_or-half a b) (omega arith) ∙ bit-bit_or k (a / 2) (b / 2)

pub bit-bit_xor : (k a b : ℕ) → bit k (bit_xor a b) ≡ unlike (bit k a) (bit k b)
unfolding bit
bit-bit_xor zero a b =
    bit_lowest _ _ _ (bit_xor-half a b) (differ-le (a % 2) (b % 2) (omega arith) (omega arith))
    ∙ differ_digits (a % 2) (b % 2) (omega arith) (omega arith)
bit-bit_xor (suc k) a b =
    bit_higher k _ _ _ (bit_xor-half a b) (differ-le (a % 2) (b % 2) (omega arith) (omega arith))
    ∙ bit-bit_xor k (a / 2) (b / 2)

eq_of_bits_below : (n a b : ℕ) → a ≤ n → b ≤ n → ((k : ℕ) → bit k a ≡ bit k b) → a ≡ b
unfolding bit
eq_of_bits_below zero a b p q same = omega arith
eq_of_bits_below (suc n) a b p q same =
    let halves : a / 2 ≡ b / 2 =
      eq_of_bits_below n (a / 2) (b / 2) (omega arith) (omega arith) (λ k. same (suc k)) in
    ground (arith, same 0)

-- Numbers with the same bits are equal.
pub eq_of_bits : (a b : ℕ) → ((k : ℕ) → bit k a ≡ bit k b) → a ≡ b
eq_of_bits a b same = eq_of_bits_below (a + b) a b (omega arith) (omega arith) same

-- The rules that push `bit` inwards.
pub ruleset bit_laws = (bit-bit_and, bit-bit_or, bit-bit_xor)
