-- ===== src/Bitmap.antt =====
-- The branches of src/access_io.c for OpenBSD and NetBSD that change the bitmap of the I/O ports that
-- a process may use: bit 0 says that a port is allowed. An unsigned long has 32 bits, and a bitmap is
-- the list of them.
pub mod Words
pub mod Ranges
use libieee.Common.{
  Bool, List, [], false, if◌then◌else◌, leb, length, ltb, suc, zero, ℕ, ◌%◌, ◌+◌, ◌-◌, ◌/◌, ◌==◌,
  ◌^◌, ◌∩◌, ◌∪◌, ◌∷◌, ◌⊖◌,
}

-- `~m` and `~0 << n`, in 32 bits.
abbrev pub not_word : ℕ → ℕ
not_word m = m ⊖ (2 ^ 32 - 1)

abbrev pub ones_from : ℕ → ℕ
ones_from n = 2 ^ 32 - 2 ^ n

-- `if (new_value) *bitmap_base |= mask; else *bitmap_base &= ~mask;`
unfoldable pub write_word : (new_value : Bool) (mask word : ℕ) → ℕ
write_word new_value mask word = if new_value then word ∪ mask else word ∩ not_word mask

-- From the loop over whole words on, with the words that are left.
unfoldable pub fill : (length : ℕ) → (new_value : Bool) → List ℕ → List ℕ
unfolding write_word
fill length new_value [] = []
fill length new_value (word ∷ words) =
    let rest = fill (length - 32) new_value words in
    if leb 32 length
    then (if new_value then 2 ^ 32 - 1 else 0) ∷ rest
    else if ltb 0 length
    then write_word new_value (not_word (ones_from length)) word ∷ words
    else word ∷ words

-- The part of set_bitmap from the word with the first port on.
unfoldable pub set_words : (low_index extent : ℕ) → (new_value : Bool) → List ℕ → List ℕ
unfolding fill write_word
set_words low_index extent new_value [] = []
set_words low_index extent new_value (word ∷ words) =
    let length = low_index + extent in
    let mask =
      if ltb length 32
      then ones_from low_index ∩ not_word (ones_from length)
      else ones_from low_index in
    if low_index == 0
    then fill length new_value (word ∷ words)
    else write_word new_value mask word ∷ fill (length - 32) new_value words

-- `bitmap + n`, and the words before it.
abbrev pub from_word : ℕ → (List ℕ → List ℕ) → List ℕ → List ℕ
from_word zero change words = change words
from_word (suc n) change [] = []
from_word (suc n) change (word ∷ words) = word ∷ from_word n change words

-- `base` is not negative.
unfoldable pub set_bitmap : (base extent : ℕ) → (new_value : Bool) → List ℕ → List ℕ
unfolding set_words
set_bitmap base extent new_value bitmap =
    from_word (base / 32) (set_words (base % 32) extent new_value) bitmap

-- The two calls of init on OpenBSD, for a port at `base`.
unfoldable pub allow_ports : (base : ℕ) → List ℕ → List ℕ
unfolding set_bitmap
allow_ports base iomap = set_bitmap 0x80 1 false (set_bitmap base 3 false iomap)

-- netbsd_ioport: `iomap[port >> 5] &= ~(1 << (port & 0x1f))`.
unfoldable pub clear_first : ℕ → List ℕ → List ℕ
clear_first n [] = []
clear_first n (word ∷ words) = (word ∩ not_word (2 ^ n)) ∷ words

unfoldable pub netbsd_ioport : (port : ℕ) → List ℕ → List ℕ
unfolding clear_first
netbsd_ioport port iomap = from_word (port / 32) (clear_first (port % 32)) iomap
