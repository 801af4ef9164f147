-- ===== src/Bitmap/Ranges.antt =====
-- What set_bitmap and netbsd_ioport of src/access_io.c do to a bitmap, bit by bit.
use libieee.Bitmap.{allow_ports, clear_first, from_word, netbsd_ioport, set_bitmap, set_words}
use libieee.Bitmap.Words.{
  bit_of, bit_of-clear_first, bit_of-set_words, length-clear_first, length-set_words,
}
use libieee.Common.{
  Bool, List, [], ap, arith, drop, false, if◌then◌else◌, leb, length, ltb, refl, suc, zero, ℕ, ◌%◌,
  ◌&&◌, ◌*◌, ◌+◌, ◌-◌, ◌/◌, ◌<◌, ◌==◌, ◌||◌, ◌∙◌, ◌∷◌, ◌≡◌, ◌≤◌,
}

-- The words before are left alone.
bit_of-from_word :
    (n : ℕ) (change : List ℕ → List ℕ) (words : List ℕ) (k : ℕ)
    → n ≤ length words
    → bit_of (from_word n change words) k
      ≡ (if ltb k (32 * n) then bit_of words k else bit_of (change (drop n words)) (k - 32 * n))
unfolding bit_of
bit_of-from_word zero change words k h = ground arith
bit_of-from_word (suc n) change [] k h = absurd (omega arith)
bit_of-from_word (suc n) change (word ∷ words) k h =
    ground (arith, bit_of-from_word n change words (k - 32), h)

bit_of-drop :
    (n : ℕ) (words : List ℕ) (k : ℕ)
    → 32 * n ≤ k
    → bit_of (drop n words) (k - 32 * n) ≡ bit_of words k
unfolding bit_of
bit_of-drop zero words k h = ap (bit_of words) (omega arith)
bit_of-drop (suc n) [] k h = refl
bit_of-drop (suc n) (word ∷ words) k h = ground (arith, bit_of-drop n words (k - 32), h)

length-drop : (n : ℕ) (words : List ℕ) → length (drop n words) ≡ length words - n
length-drop zero words = omega arith
length-drop (suc n) [] = omega arith
length-drop (suc n) (word ∷ words) = omega (arith, length-drop n words)

-- set_bitmap gives the bits from `base` on, `extent` of them, the new value, and leaves every other
-- bit of the bitmap as it was, if the last of them lies in the bitmap.
pub bit_of-set_bitmap :
    (base extent : ℕ) (new_value : Bool) (bitmap : List ℕ) (k : ℕ)
    → base + extent ≤ 32 * length bitmap
    → bit_of (set_bitmap base extent new_value bitmap) k
      ≡ (if leb base k && ltb k (base + extent) then new_value else bit_of bitmap k)
unfolding set_bitmap
bit_of-set_bitmap base extent new_value bitmap k h =
    let n = base / 32 in
    bit_of-from_word n (set_words (base % 32) extent new_value) bitmap k (omega arith)
    ∙ ground (
      arith,
      h,
      length-drop n bitmap,
      bit_of-set_words (base % 32) extent new_value (drop n bitmap) (k - 32 * n),
      bit_of-drop n bitmap k,
    )

length-from_word :
    (n : ℕ) (change : List ℕ → List ℕ) (words : List ℕ)
    → ((words : List ℕ) → length (change words) ≡ length words)
    → length (from_word n change words) ≡ length words
length-from_word zero change words h = h words
length-from_word (suc n) change [] h = refl
length-from_word (suc n) change (word ∷ words) h = omega (arith, length-from_word n change words h)

length-set_bitmap :
    (base extent : ℕ) (new_value : Bool) (bitmap : List ℕ)
    → length (set_bitmap base extent new_value bitmap) ≡ length bitmap
unfolding set_bitmap
length-set_bitmap base extent new_value bitmap =
    length-from_word (base / 32) (set_words (base % 32) extent new_value) bitmap
      (length-set_words (base % 32) extent new_value)

length-netbsd_ioport :
    (port : ℕ) (iomap : List ℕ) → length (netbsd_ioport port iomap) ≡ length iomap
unfolding netbsd_ioport
length-netbsd_ioport port iomap =
    length-from_word (port / 32) (clear_first (port % 32)) iomap (length-clear_first (port % 32))

bit_of-netbsd_ioport :
    (port : ℕ) (iomap : List ℕ) (k : ℕ)
    → port < 32 * length iomap
    → bit_of (netbsd_ioport port iomap) k ≡ (if port == k then false else bit_of iomap k)
unfolding netbsd_ioport
bit_of-netbsd_ioport port iomap k h =
    let n = port / 32 in
    bit_of-from_word n (clear_first (port % 32)) iomap k (omega arith)
    ∙ ground (
      arith,
      h,
      bit_of-clear_first (port % 32) (drop n iomap) (k - 32 * n),
      bit_of-drop n iomap k,
    )

-- Both systems allow the three ports from `base` on, and leave every other bit as it was, but that
-- OpenBSD allows port 0x80 too; if those ports lie in the bitmap. Port `base + 3` is not allowed
-- with them.
pub ports-allowed :
    (base : ℕ) (iomap : List ℕ) (k : ℕ)
    → base + 3 ≤ 32 * length iomap
    → 0x80 < 32 * length iomap
    → (bit_of (allow_ports base iomap) k
        ≡ (if leb base k && ltb k (base + 3) || 0x80 == k then false else bit_of iomap k))
      × (bit_of (netbsd_ioport (base + 2) (netbsd_ioport (base + 1) (netbsd_ioport base iomap))) k
          ≡ (if leb base k && ltb k (base + 3) then false else bit_of iomap k))
unfolding allow_ports
ports-allowed base iomap k h j = (
  ground (
    arith,
    h,
    j,
    bit_of-set_bitmap 0x80 1 false (set_bitmap base 3 false iomap) k,
    bit_of-set_bitmap base 3 false iomap k,
    length-set_bitmap base 3 false iomap,
  ),
  ground (
    arith,
    h,
    bit_of-netbsd_ioport (base + 2) (netbsd_ioport (base + 1) (netbsd_ioport base iomap)) k,
    bit_of-netbsd_ioport (base + 1) (netbsd_ioport base iomap) k,
    bit_of-netbsd_ioport base iomap k,
    length-netbsd_ioport (base + 1) (netbsd_ioport base iomap),
    length-netbsd_ioport base iomap,
  ),
)
