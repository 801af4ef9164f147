-- ===== src/Bitmap/Words.antt =====
-- What set_bitmap of src/access_io.c does to the bits of the words that it changes.
use libieee.Bitmap.{clear_first, fill, not_word, ones_from, set_words, write_word}
use libieee.Common.{
  Bool, Bool-cases, List, [], ap, arith, false, if◌then◌else◌, inl, inr, leb, length, ltb, not,
  refl, suc, true, zero, ℕ, ◌&&◌, ◌*◌, ◌+◌, ◌-◌, ◌<◌, ◌==◌, ◌^◌, ◌||◌, ◌∙◌, ◌∩◌, ◌∷◌, ◌≡◌, ◌≤◌,
}
use libieee.Common.Bits.{bit, bit-bit_and, bit-bit_or, bit-bit_xor, unlike}

-- Bit `k` of a bitmap.
unfoldable pub bit_of : List ℕ → ℕ → Bool
bit_of [] k = false
bit_of (word ∷ words) k = if ltb k 32 then bit k word else bit_of words (k - 32)

-- The masks, checked at every shift and every bit.
every : (ℕ → Bool) → ℕ → Bool
every test zero = true
every test (suc n) = if test n then every test n else false

at_each : (test : ℕ → Bool) {n : ℕ} (k : ℕ) → every test n ≡ true → k < n → test k ≡ true
unfolding every
at_each test {n = zero} k passed below = elim below [ ]
at_each test {n = suc n} k passed below = ground (arith, at_each test {n = n} k, passed, below)

abbrev same : Bool → Bool → Bool
same true b = b
same false b = not b

eq_of_same : (a b : Bool) → same a b ≡ true → a ≡ b
eq_of_same true true h = refl
eq_of_same true false h = absurd (cc)
eq_of_same false true h = absurd (cc)
eq_of_same false false h = refl

abbrev ones_table : ℕ → ℕ → Bool
ones_table n k = same (bit k (ones_from n)) (leb n k)

ones_checked : every (λ n. every (ones_table n) 32) 33 ≡ true
unfolding every bit
ones_checked = refl

bit-ones_from : (n k : ℕ) → n ≤ 32 → k < 32 → bit k (ones_from n) ≡ leb n k
bit-ones_from n k h j = eq_of_same _ _ (
    at_each (ones_table n) k (at_each (λ m. every (ones_table m) 32) n ones_checked (omega arith))
      j)

unlike_true : (b : Bool) (k : ℕ) → unlike b (leb 0 k) ≡ not b
unlike_true b k = ground arith

or_if : (b m : Bool) → (b || m) ≡ (if m then true else b)
or_if b m = ground arith

and_not_if : (b m : Bool) → (b && not m) ≡ (if m then false else b)
and_not_if b m = ground arith

pub bit-not_word : (m k : ℕ) → k < 32 → bit k (not_word m) ≡ not (bit k m)
bit-not_word m k j =
    bit-bit_xor k m (2 ^ 32 - 1)
    ∙ (ap (unlike (bit k m)) (bit-ones_from 0 k (omega arith) j) ∙ unlike_true (bit k m) k)

pub bit-write_word :
    (new_value : Bool) (mask word k : ℕ)
    → k < 32
    → bit k (write_word new_value mask word) ≡ (if bit k mask then new_value else bit k word)
unfolding write_word
bit-write_word true mask word k j = bit-bit_or k word mask ∙ or_if (bit k word) (bit k mask)
bit-write_word false mask word k j =
    bit-bit_and k word (not_word mask)
    ∙ (ap (◌&&◌ (bit k word)) (bit-not_word mask k j) ∙ and_not_if (bit k word) (bit k mask))

-- The mask of the last word.
bit-last_mask : (n k : ℕ) → n ≤ 32 → k < 32 → bit k (not_word (ones_from n)) ≡ ltb k n
bit-last_mask n k h j = bit-not_word (ones_from n) k j ∙ (ap not (bit-ones_from n k h j) ∙ swap)
  where
    swap : not (leb n k) ≡ ltb k n
    swap = ground arith

bit-zero : (k : ℕ) → bit k 0 ≡ false
unfolding bit
bit-zero zero = refl
bit-zero (suc k) = bit-zero k

whole_word :
    (new_value : Bool) (k : ℕ) → k < 32 → bit k (if new_value then 2 ^ 32 - 1 else 0) ≡ new_value
whole_word true k j = bit-ones_from 0 k (omega arith) j ∙ ground arith
whole_word false k j = bit-zero k

-- From a word boundary on.
bit_of-fill :
    (count : ℕ) (new_value : Bool) (words : List ℕ) (k : ℕ)
    → count ≤ 32 * length words
    → bit_of (fill count new_value words) k ≡ (if ltb k count then new_value else bit_of words k)
unfolding bit_of fill
bit_of-fill count new_value [] k h = ground (arith, h)
bit_of-fill count new_value (word ∷ words) k h = ground (
  arith,
  h,
  bit_of-fill (count - 32) new_value words (k - 32),
  whole_word new_value k,
  bit-write_word new_value (not_word (ones_from count)) word k,
  bit-last_mask count k,
)

bit-first_mask :
    (low count k : ℕ)
    → low ≤ 32
    → k < 32
    → bit k (if ltb count 32 then ones_from low ∩ not_word (ones_from count) else ones_from low)
      ≡ (leb low k && (ltb k count || leb 32 count))
bit-first_mask low count k h j = elim (Bool-cases (ltb count 32)) [
  | inl e ↦ rw e (
      bit-bit_and k (ones_from low) (not_word (ones_from count))
      ∙ ground (arith, e, bit-ones_from low k, bit-last_mask count k))
  | inr e ↦ rw e (ground (arith, e, bit-ones_from low k))
]

-- From the word with the first port on.
pub bit_of-set_words :
    (low extent : ℕ) (new_value : Bool) (words : List ℕ) (k : ℕ)
    → low < 32
    → low + extent ≤ 32 * length words
    → bit_of (set_words low extent new_value words) k
      ≡ (if leb low k && ltb k (low + extent) then new_value else bit_of words k)
unfolding bit_of set_words
bit_of-set_words low extent new_value [] k j h = ground (arith, j, h)
bit_of-set_words low extent new_value (word ∷ words) k j h = elim (Bool-cases (low == 0)) [
  | inl e ↦ rw e (bit_of-fill (low + extent) new_value (word ∷ words) k h ∙ from_zero e)
  | inr e ↦ rw e (
      ground (
        arith,
        h,
        j,
        bit_of-fill (low + extent - 32) new_value words (k - 32),
        bit-write_word new_value
            (if ltb (low + extent) 32
              then ones_from low ∩ not_word (ones_from (low + extent))
              else ones_from low)
            word k,
        bit-first_mask low (low + extent) k,
      ))
]
  where
    from_zero :
        (low == 0) ≡ true
        → (if ltb k (low + extent) then new_value else bit_of (word ∷ words) k)
          ≡ (if leb low k && ltb k (low + extent) then new_value else bit_of (word ∷ words) k)
    from_zero e = ground (arith, e)

-- The mask of netbsd_ioport.
abbrev single_table : ℕ → ℕ → Bool
single_table n k = same (bit k (2 ^ n)) (n == k)

single_checked : every (λ n. every (single_table n) 32) 32 ≡ true
unfolding every bit
single_checked = refl

bit-single : (n k : ℕ) → n < 32 → k < 32 → bit k (2 ^ n) ≡ (n == k)
bit-single n k h j =
    eq_of_same _ _
      (at_each (single_table n) k (at_each (λ m. every (single_table m) 32) n single_checked h) j)

pub bit_of-clear_first :
    (n : ℕ) (words : List ℕ) (k : ℕ)
    → n < 32
    → bit_of (clear_first n words) k ≡ (if n == k then false else bit_of words k)
unfolding bit_of clear_first
bit_of-clear_first n [] k h = ground arith
bit_of-clear_first n (word ∷ words) k h =
    ground (arith, h, bit-bit_and k word (not_word (2 ^ n)), bit-not_word (2 ^ n) k, bit-single n k)

length-fill :
    (count : ℕ) (new_value : Bool) (words : List ℕ)
    → length (fill count new_value words) ≡ length words
unfolding fill
length-fill count new_value [] = refl
length-fill count new_value (word ∷ words) =
    ground (arith, length-fill (count - 32) new_value words)

pub length-set_words :
    (low extent : ℕ) (new_value : Bool) (words : List ℕ)
    → length (set_words low extent new_value words) ≡ length words
unfolding set_words
length-set_words low extent new_value [] = refl
length-set_words low extent new_value (word ∷ words) = ground (
  arith,
  length-fill (low + extent) new_value (word ∷ words),
  length-fill (low + extent - 32) new_value words,
)

pub length-clear_first : (n : ℕ) (words : List ℕ) → length (clear_first n words) ≡ length words
unfolding clear_first
length-clear_first n [] = refl
length-clear_first n (word ∷ words) = refl
