-- ===== src/Conf/Reader/Phrase.antt =====
-- The words of a configuration file: try_read_config_file of src/conf.c finds one phrase in them.
use libieee.Common.{
  Bool, Bool-cases, List, [], ap, arith, false, inl, inr, length, refl, suc, true, zero, ℕ, ◌&&◌,
  ◌<◌, ◌||◌, ◌∙◌, ◌∷◌, ◌≡◌, ◌≤◌,
}
use libieee.Conf.Lexer.{Lexer, Scan, at, end_of_file, get_token, size_of_lines, token}
use libieee.Conf.Lexer.Shrinks.{get_token-size, size_after}
use libieee.Conf.Reader.{
  after_disallow, after_method, disallow, read_lines, read_loop, reading_done,
}
use libieee.Conf.Words.{eq_of_text_eq, text_eq, word_disallow, word_method, word_ppdev}
use libieee.Port.Machine.{Text}

-- The words that repeated calls of get_token give from here on, up to the end of the file.
pub data Lexes : Scan → List Text → Type 0 where
  lexes_end : Lexes end_of_file []
  lexes_word :
      {t : Text} {l : Lexer} {ts : List Text} → Lexes (get_token l) ts → Lexes (token t l) (t ∷ ts)

-- "disallow method ppdev" at the start of the words, and anywhere in them.
unfoldable pub is_phrase : List Text → Bool
is_phrase (a ∷ b ∷ c ∷ ts) =
    text_eq a word_disallow && (text_eq b word_method && text_eq c word_ppdev)
is_phrase _ = false

unfoldable pub has_phrase : List Text → Bool
unfolding is_phrase
has_phrase [] = false
has_phrase (t ∷ ts) = is_phrase (t ∷ ts) || has_phrase ts

-- Each word is a token, which takes a character of the file away.
length-lexed : {s : Scan} {ts : List Text} → Lexes s ts → length ts ≤ size_after s
length-lexed lexes_end = omega arith
length-lexed (lexes_word {l = l} rest) = omega (arith, length-lexed rest, get_token-size l)

method_other : (t : Text) → text_eq t word_method ≡ true → text_eq t word_disallow ≡ false
method_other t h = rw (eq_of_text_eq t word_method h) refl

not_phrase :
    (t : Text) (ts : List Text) → text_eq t word_disallow ≡ false → is_phrase (t ∷ ts) ≡ false
unfolding is_phrase
not_phrase t [] h = refl
not_phrase t (b ∷ []) h = refl
not_phrase t (b ∷ c ∷ ts) h = rw h refl

no_method :
    (a t : Text) (ts : List Text) → text_eq t word_method ≡ false → is_phrase (a ∷ t ∷ ts) ≡ false
unfolding is_phrase
no_method a t [] h = refl
no_method a t (c ∷ ts) h = ground (arith, h)

-- What disallow leaves when it gets the words `ts` after the word "disallow": the loop goes on with
-- other words, no more of them, which make the same difference to conf.disallow_ppdev.
abbrev Leaves : (conf expected : Bool) (n : ℕ) → Scan × Bool → Type 0
Leaves conf expected n (s, conf') =
    (ts : List Text) × Lexes s ts
    × (length ts ≤ n)
    × ((conf' || has_phrase ts) ≡ (conf || expected))

-- The words before: "disallow" and "method".
module _ (conf : Bool) (a b : Text) (a_is : text_eq a word_disallow ≡ true)
    (b_is : text_eq b word_method ≡ true) where
  after_ppdev :
      (t : Text) (l : Lexer) (ts : List Text) (e : Bool)
      → text_eq t word_ppdev ≡ e
      → Lexes (get_token l) ts
      → Leaves conf (has_phrase (a ∷ b ∷ t ∷ ts)) (suc (length ts)) (after_method conf (token t l))
  unfolding has_phrase
  after_ppdev t l ts true h lx = rw h (ts, lx, omega arith, ground arith)
  after_ppdev t l ts false h lx = rw h (
    t ∷ ts,
    lexes_word lx,
    omega arith,
    rw (a_is, b_is, not_phrase b (t ∷ ts) (method_other b b_is)) refl,
  )

  after_method-Leaves :
      {s : Scan} {ts : List Text}
      → Lexes s ts
      → Leaves conf (has_phrase (a ∷ b ∷ ts)) (length ts) (after_method conf s)
  unfolding has_phrase is_phrase
  after_method-Leaves lexes_end = ([], lexes_end, omega arith, refl)
  after_method-Leaves (lexes_word {t = t} {l = l} {ts = ts} rest) =
      after_ppdev t l ts (text_eq t word_ppdev) refl rest

module _ (conf : Bool) (a : Text) (a_is : text_eq a word_disallow ≡ true) where
  after_word :
      (t : Text) (l : Lexer) (ts : List Text) (e : Bool)
      → text_eq t word_method ≡ e
      → Lexes (get_token l) ts
      → Leaves conf (has_phrase (a ∷ t ∷ ts)) (suc (length ts)) (after_disallow conf (token t l))
  unfolding has_phrase
  after_word t l ts true h lx =
      let (us, lexes, shorter, same) = after_method-Leaves conf a t a_is h lx in
      rw h (us, lexes, omega arith, same)
  after_word t l ts false h lx =
      rw h (t ∷ ts, lexes_word lx, omega arith, rw (no_method a t ts h) refl)

  after_disallow-Leaves :
      {s : Scan} {ts : List Text}
      → Lexes s ts
      → Leaves conf (has_phrase (a ∷ ts)) (length ts) (after_disallow conf s)
  unfolding has_phrase is_phrase
  after_disallow-Leaves lexes_end = ([], lexes_end, omega arith, refl)
  after_disallow-Leaves (lexes_word {t = t} {l = l} {ts = ts} rest) =
      after_word t l ts (text_eq t word_method) refl rest

-- The loop, on a word of either kind.
pub read_loop-disallow :
    (k : ℕ) (conf : Bool) (t : Text) (l : Lexer)
    → text_eq t word_disallow ≡ true
    → read_loop (suc k) conf (token t l) ≡ read_loop k ((disallow conf l).1) ((disallow conf l).0)
unfolding read_loop
read_loop-disallow k conf t l h = rw h refl

pub read_loop-other :
    (k : ℕ) (conf : Bool) (t : Text) (l : Lexer)
    → text_eq t word_disallow ≡ false
    → read_loop (suc k) conf (token t l) ≡ read_loop k conf (get_token l)
unfolding read_loop
read_loop-other k conf t l h = rw h refl

read_loop-phrase :
    (k : ℕ) (conf : Bool) {s : Scan} {ts : List Text}
    → Lexes s ts
    → length ts < k
    → read_loop k conf s ≡ reading_done (conf || has_phrase ts)
unfolding read_loop has_phrase disallow
read_loop-phrase zero conf lx h = absurd (omega arith)
read_loop-phrase (suc k) conf lexes_end h = ap reading_done (ground arith)
read_loop-phrase (suc k) conf (lexes_word {t = t} {l = l} {ts = ts} rest) h =
    elim (Bool-cases (text_eq t word_disallow)) [
      | inl known ↦
          let (us, lexes, shorter, same) = after_disallow-Leaves conf t known rest in
          read_loop-disallow k conf t l known
          ∙ (read_loop-phrase k _ lexes (omega arith) ∙ ap reading_done same)
      | inr other ↦
          read_loop-other k conf t l other
          ∙ (read_loop-phrase k conf rest (omega arith) ∙ rw (not_phrase t ts other) refl)
    ]

-- A reading of a configuration file that gives these words ends, and disallows ppdev exactly if
-- "disallow method ppdev" is among them.
pub read_lines-phrase :
    (lines : List Text) (ts : List Text)
    → Lexes (get_token (at [] lines)) ts
    → read_lines lines ≡ reading_done (has_phrase ts)
unfolding read_lines
read_lines-phrase lines ts lx =
    let few : length ts ≤ size_of_lines lines =
      omega (arith, length-lexed lx, get_token-size (at [] lines)) in
    read_loop-phrase _ false lx (omega arith)
