-- ===== src/Tests/Bitmap.antt =====
-- Bitmaps of I/O ports, and the theorems on them.
use libieee.Bitmap.{allow_ports, netbsd_ioport, set_bitmap}
use libieee.Bitmap.Ranges.{bit_of-set_bitmap, ports-allowed}
use libieee.Bitmap.Words.{bit_of}
use libieee.Common.{List, [], arith, false, refl, suc, true, zero, ℕ, ◌-◌, ◌^◌, ◌∷◌, ◌≡◌}

all_denied : ℕ → List ℕ
all_denied zero = []
all_denied (suc n) = (2 ^ 32 - 1) ∷ all_denied n

abbrev three_words : List ℕ
three_words = 0 ∷ 0 ∷ 0 ∷ []

-- Ports 30 to 69 are denied: the last two of the first word, the second, and six of the third.
denied : set_bitmap 30 40 true three_words ≡ 0xc0000000 ∷ 0xffffffff ∷ 0x3f ∷ []
unfolding set_bitmap
denied = refl

bit_of-set_bitmap_example : bit_of (set_bitmap 30 40 true three_words) 33 ≡ true
bit_of-set_bitmap_example = bit_of-set_bitmap 30 40 true three_words 33 (omega arith)

-- A port at 32, in a bitmap of 160 ports.
ports-allowed_example :
    (bit_of (allow_ports 32 (all_denied 5)) 33 ≡ false)
    × (bit_of (netbsd_ioport 34 (netbsd_ioport 33 (netbsd_ioport 32 (all_denied 5)))) 33 ≡ false)
unfolding all_denied
ports-allowed_example = ports-allowed 32 (all_denied 5) 33 (omega arith) (omega arith)
