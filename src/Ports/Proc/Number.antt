-- ===== src/Ports/Proc/Number.antt =====
-- The number in a name of /proc/sys/dev/parport, such as "parport10", as src/ports.c finds it.
use libieee.Common.{
  Bool, [], ap, arith, drop, false, length, length-append, refl, suc, true, zero, ℕ, ◌&&◌, ◌++◌,
  ◌+◌, ◌-◌, ◌<◌, ◌∙◌, ◌∷◌, ◌≡◌, ◌≤◌,
}
use libieee.Port.Machine.{Text}
use libieee.Ports.Proc.{char_at, is_digit, number_of, skip_digits}

abbrev pub all_digits : Text → Bool
all_digits [] = true
all_digits (c ∷ name) = is_digit c && all_digits name

-- The digits that follow a character at place `n`.
char_at-append :
    (stem : Text) (c : ℕ) (digits : Text) → char_at (length stem) (stem ++ (c ∷ digits)) ≡ c
char_at-append [] c digits = refl
char_at-append (b ∷ stem) c digits = char_at-append stem c digits

digit_at :
    (digits : Text) (n : ℕ)
    → all_digits digits ≡ true
    → n < length digits
    → is_digit (char_at n digits) ≡ true
digit_at [] n h lt = absurd (omega arith)
digit_at (d ∷ digits) zero h lt = ground (arith, h)
digit_at (d ∷ digits) (suc n) h lt =
    let rest : all_digits digits ≡ true = ground (arith, h) in digit_at digits n rest (omega arith)

char_at-digit :
    (stem : Text) (c : ℕ) (digits : Text) (n : ℕ)
    → all_digits digits ≡ true
    → n < length digits
    → is_digit (char_at (suc (length stem + n)) (stem ++ (c ∷ digits))) ≡ true
char_at-digit [] c digits n h lt = let e : 0 + n ≡ n = omega arith in rw e (digit_at digits n h lt)
char_at-digit (b ∷ stem) c digits n h lt =
    let e : suc (length stem) + n ≡ suc (length stem + n) = omega arith in
    rw e (char_at-digit stem c digits n h lt)

-- The loop stops at a character that is no digit, and passes one that is.
skip_digits-stops :
    (len : ℕ) (name : Text) → is_digit (char_at len name) ≡ false → skip_digits len name ≡ len
unfolding skip_digits
skip_digits-stops zero name h = refl
skip_digits-stops (suc len) name h = rw h refl

skip_digits-passes :
    (len : ℕ) (name : Text)
    → is_digit (char_at (suc len) name) ≡ true
    → skip_digits (suc len) name ≡ skip_digits len name
unfolding skip_digits
skip_digits-passes len name h = rw h refl

skip_digits-append :
    (stem : Text) (c : ℕ) (digits : Text) (n : ℕ)
    → is_digit c ≡ false
    → all_digits digits ≡ true
    → n ≤ length digits
    → skip_digits (length stem + n) (stem ++ (c ∷ digits)) ≡ length stem
skip_digits-append stem c digits zero last h le =
    let e : length stem + 0 ≡ length stem = omega arith in
    rw e (skip_digits-stops (length stem) _ (ap is_digit (char_at-append stem c digits) ∙ last))
skip_digits-append stem c digits (suc n) last h le =
    let e : length stem + suc n ≡ suc (length stem + n) = omega arith in
    rw e (
      skip_digits-passes (length stem + n) _ (char_at-digit stem c digits n h (omega arith))
      ∙ skip_digits-append stem c digits n last h (omega arith))

drop-append :
    (stem : Text) (c : ℕ) (digits : Text) → drop (suc (length stem)) (stem ++ (c ∷ digits)) ≡ digits
drop-append [] c digits = refl
drop-append (b ∷ stem) c digits = drop-append stem c digits

-- A name that ends in a number is split before it: `number_of` gives the digits at the end of the
-- name, all of them, if another character stands before them.
pub number_of-append :
    (stem : Text) (c : ℕ) (digits : Text)
    → is_digit c ≡ false
    → all_digits digits ≡ true
    → number_of (stem ++ (c ∷ digits)) ≡ digits
unfolding number_of
number_of-append stem c digits last h =
    let size : length (stem ++ (c ∷ digits)) - 1 ≡ length stem + length digits =
      omega (arith, length-append stem (c ∷ digits)) in
    rw size (
      rw (skip_digits-append stem c digits (length digits) last h (omega arith))
        (drop-append stem c digits))
