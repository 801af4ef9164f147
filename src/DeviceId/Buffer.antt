-- ===== src/DeviceId/Buffer.antt =====
-- The buffer of src/deviceid.c, as the bytes from its start, and the arithmetic on its length.
use libieee.Common.{
  Bool-cases, List, [], arith, drop, if◌then◌else◌, inl, inr, leb, length, ltb, negsuc, pos, refl,
  suc, zero, ℕ, ℤ, ◌%◌, ◌*◌, ◌++◌, ◌+◌, ◌-◌, ◌/◌, ◌<◌, ◌^◌, ◌∙◌, ◌∷◌, ◌≡◌, ◌≤◌,
}

-- Bytes stored from a place on. A store past the end makes the list longer than the buffer is.
unfoldable pub store_at : ℕ → List ℕ → List ℕ → List ℕ
store_at zero bytes buffer = bytes ++ drop (length bytes) buffer
store_at (suc n) bytes [] = 0 ∷ store_at n bytes []
store_at (suc n) bytes (b ∷ buffer) = b ∷ store_at n bytes buffer

-- `buffer[n]`, and zero past the end of what is known.
unfoldable pub byte_at : ℕ → List ℕ → ℕ
byte_at n [] = 0
byte_at zero (b ∷ buffer) = b
byte_at (suc n) (b ∷ buffer) = byte_at n buffer

-- One more than the largest size_t.
abbrev pub size_range : ℕ
size_range = 2 ^ 64

-- `len - n`, of type size_t.
abbrev pub size_sub : ℕ → ℕ → ℕ
size_sub len n = (len + size_range - n) % size_range

-- `(size_t) x`
abbrev pub to_size : ℤ → ℕ
to_size (pos n) = n
to_size (negsuc n) = size_range - 1 - n

abbrev pub add_int : ℤ → ℤ → ℤ
add_int (pos m) (pos n) = pos (m + n)
add_int (pos m) (negsuc n) = if ltb n m then pos (m - suc n) else negsuc (n - m)
add_int (negsuc m) (pos n) = if ltb m n then pos (n - suc m) else negsuc (m - n)
add_int (negsuc m) (negsuc n) = negsuc (suc (m + n))

-- The value of a char, which is signed.
abbrev pub char_value : ℕ → ℤ
char_value b = if ltb b 128 then pos b else negsuc (255 - b)

-- `x * 256`
abbrev pub times_256 : ℤ → ℤ
times_256 (pos n) = pos (n * 256)
times_256 (negsuc n) = negsuc (n * 256 + 255)

-- `idlen`, cut down to what the buffer has room for.
unfoldable pub idlen : ℕ → ℕ → ℕ → ℕ
idlen len high low =
    let claimed = to_size (add_int (times_256 (char_value high)) (char_value low)) in
    if leb (size_sub len 2) claimed then size_sub len 2 else claimed

-- `if ((size_t) got < len) buffer[got] = '\0'`
unfoldable pub terminated : ℤ → ℕ → List ℕ → List ℕ
unfolding store_at
terminated got len buffer =
    if ltb (to_size got) len then store_at (to_size got) (0 ∷ []) buffer else buffer

-- `buffer[0] = got / (1<<8)` and `buffer[1] = got % (1<<8)`, as unsigned char.
unfoldable pub with_length : ℕ → List ℕ → List ℕ
unfolding store_at
with_length got buffer = store_at 0 (got / 256 % 256 ∷ got % 256 ∷ []) buffer

pub length-store_at :
    (n : ℕ) (bytes buffer : List ℕ)
    → n + length bytes ≤ length buffer
    → length (store_at n bytes buffer) ≡ length buffer
unfolding store_at
length-store_at zero bytes buffer h = length-overwrite bytes buffer h
  where
    length-overwrite :
        (bytes buffer : List ℕ)
        → 0 + length bytes ≤ length buffer
        → length (bytes ++ drop (length bytes) buffer) ≡ length buffer
    length-overwrite [] buffer h = refl
    length-overwrite (b ∷ bytes) [] h = absurd (omega arith)
    length-overwrite (b ∷ bytes) (c ∷ buffer) h =
        omega (arith, length-overwrite bytes buffer (omega arith))
length-store_at (suc n) bytes [] h = absurd (omega arith)
length-store_at (suc n) bytes (b ∷ buffer) h =
    omega (arith, length-store_at n bytes buffer (omega arith))

pub length-terminated :
    (got : ℤ) (len : ℕ) (buffer : List ℕ)
    → length buffer ≡ len
    → length (terminated got len buffer) ≡ len
unfolding terminated
length-terminated got len buffer h = elim (Bool-cases (ltb (to_size got) len)) [
  | inl e ↦ rw e (length-store_at (to_size got) (0 ∷ []) buffer (ground arith) ∙ h)
  | inr e ↦ rw e h
]

pub length-with_length :
    (got : ℕ) (buffer : List ℕ)
    → 2 ≤ length buffer
    → length (with_length got buffer) ≡ length buffer
unfolding with_length
length-with_length got buffer h =
    length-store_at 0 (got / 256 % 256 ∷ got % 256 ∷ []) buffer (omega arith)

-- What is asked for fits into the buffer behind the two bytes of the length.
pub idlen-fits : (len high low : ℕ) → 2 ≤ len → len < size_range → 2 + idlen len high low ≤ len
unfolding idlen
idlen-fits len high low h g = ground arith
