-- ===== src/Conf/Words.antt =====
-- Texts compared, as src/conf.c compares a token with a word by strcmp.
use libieee.Common.{Bool, [], arith, false, refl, true, ◌&&◌, ◌==◌, ◌∷◌, ◌≡◌}
use libieee.Port.Machine.{Text}

-- `!strcmp (s, t)`
abbrev pub text_eq : Text → Text → Bool
text_eq [] [] = true
text_eq [] (b ∷ t) = false
text_eq (a ∷ s) [] = false
text_eq (a ∷ s) (b ∷ t) = a == b && text_eq s t

pub text_eq_refl : (s : Text) → text_eq s s ≡ true
text_eq_refl [] = refl
text_eq_refl (a ∷ s) = ground (arith, text_eq_refl s)

pub eq_of_text_eq : (s t : Text) → text_eq s t ≡ true → s ≡ t
eq_of_text_eq [] [] h = refl
eq_of_text_eq [] (b ∷ t) h = absurd (cc)
eq_of_text_eq (a ∷ s) [] h = absurd (cc)
eq_of_text_eq (a ∷ s) (b ∷ t) h = ground (arith, eq_of_text_eq s t)

-- "disallow", "method" and "ppdev"
abbrev pub word_disallow : Text
word_disallow = b'd' ∷ b'i' ∷ b's' ∷ b'a' ∷ b'l' ∷ b'l' ∷ b'o' ∷ b'w' ∷ []

abbrev pub word_method : Text
word_method = b'm' ∷ b'e' ∷ b't' ∷ b'h' ∷ b'o' ∷ b'd' ∷ []

abbrev pub word_ppdev : Text
word_ppdev = b'p' ∷ b'p' ∷ b'd' ∷ b'e' ∷ b'v' ∷ []
