-- ===== src/Conf/Reader/Ends.antt =====
-- The loop of try_read_config_file in src/conf.c ends.
use libieee.Common.{
  Bool, Bool-cases, List, [], arith, false, inl, inr, none, refl, some, suc, true, zero, ℕ, ◌+◌,
  ◌<◌, ◌∷◌, ◌≡◌, ◌≢◌, ◌≤◌, ◌⊎◌,
}
use libieee.Conf.Lexer.{
  Lexer, Scan, at, end_of_file, get_token, size_of_lines, token, undefined_read,
}
use libieee.Conf.Lexer.Bounds.{SoundScan, all_end_well, ends_well, get_token-Sound}
use libieee.Conf.Lexer.Shrinks.{get_token-size, size_after, size_of}
use libieee.Conf.Reader.{
  Config, Reading, after_disallow, after_method, disallow, read_config_file, read_lines, read_loop,
  reading_done, still_reading,
}
use libieee.Conf.Reader.Phrase.{
  Lexes, has_phrase, lexes_end, lexes_word, read_lines-phrase, read_loop-disallow, read_loop-other,
}
use libieee.Conf.Words.{text_eq, word_disallow}
use libieee.Port.Machine.{Text}

after_method-size : (conf : Bool) (s : Scan) → size_after ((after_method conf s).0) ≤ size_after s
after_method-size conf undefined_read = omega arith
after_method-size conf end_of_file = omega arith
after_method-size conf (token t l) = ground (arith, get_token-size l)

after_disallow-size :
    (conf : Bool) (s : Scan) → size_after ((after_disallow conf s).0) ≤ size_after s
after_disallow-size conf undefined_read = omega arith
after_disallow-size conf end_of_file = omega arith
after_disallow-size conf (token t l) =
    ground (arith, get_token-size l, after_method-size conf (get_token l))

disallow-size : (conf : Bool) (l : Lexer) → size_after ((disallow conf l).0) ≤ size_of l
unfolding disallow
disallow-size conf l = omega (arith, after_disallow-size conf (get_token l), get_token-size l)

-- With a round for each character the loop ends.
read_loop-ends :
    (k : ℕ) (conf : Bool) (s : Scan) → size_after s < k → read_loop k conf s ≢ still_reading
unfolding read_loop
read_loop-ends zero conf s h = absurd (omega arith)
read_loop-ends (suc k) conf undefined_read h = λ e. absurd (cc)
read_loop-ends (suc k) conf end_of_file h = λ e. absurd (cc)
read_loop-ends (suc k) conf (token t l) h = elim (Bool-cases (text_eq t word_disallow)) [
  | inl known ↦
      rw (read_loop-disallow k conf t l known)
        (read_loop-ends k _ _ (omega (arith, disallow-size conf l)))
  | inr other ↦
      rw (read_loop-other k conf t l other)
        (read_loop-ends k conf _ (omega (arith, get_token-size l)))
]

read_lines-stops : (lines : List Text) → read_lines lines ≢ still_reading
unfolding read_lines
read_lines-stops lines =
    read_loop-ends (size_of_lines lines + 1) false (get_token (at [] lines))
      (omega (arith, get_token-size (at [] lines)))

-- In a file whose lines end well, get_token gives one word after another up to the end of the file.
lt_suc : {m n : ℕ} → m ≤ n → m < suc n
lt_suc h = omega arith

ends_nil : ends_well [] ≡ true
unfolding ends_well
ends_nil = refl

words_of : (k : ℕ) (s : Scan) → size_after s < k → SoundScan s → (ts : List Text) × Lexes s ts
words_of zero s h sound = absurd (omega arith)
words_of (suc k) undefined_read h sound = absurd (cc)
words_of (suc k) end_of_file h sound = ([], lexes_end)
words_of (suc k) (token t l) h sound =
    let (ts, lexes) =
      words_of k (get_token l) (omega (arith, get_token-size l)) (get_token-Sound l sound) in
    (t ∷ ts, lexes_word lexes)

-- No line of the configuration file makes the reading look outside the line, if no line ends in a
-- backslash: the file then gives words, and they decide whether ppdev is disallowed.
pub read_lines-Sound :
    (lines : List Text)
    → all_end_well lines ≡ true
    → (ts : List Text) × Lexes (get_token (at [] lines)) ts
      × (read_lines lines ≡ reading_done (has_phrase ts))
read_lines-Sound lines well =
    let first : Lexer = at [] lines in
    let (ts, lexes) =
      words_of _ (get_token first) (lt_suc (get_token-size first))
        (get_token-Sound first (ends_nil, well)) in
    (ts, lexes, read_lines-phrase lines ts lexes)

Reading-cases :
    (r : Reading)
    → r ≢ still_reading
    → ((d : Bool) × (r ≡ reading_done d)) ⊎ (r ≡ Reading.undefined)
Reading-cases Reading.undefined h = inr refl
Reading-cases still_reading h = absurd (h refl)
Reading-cases (reading_done d) h = inl (d, refl)

-- With as many rounds as the file has characters, and one, the reading of a configuration file comes
-- to the end of the file, or else a line ends in a backslash and get_token looks behind the end of
-- it, after which the source may do anything; a file with no such line is read to its end.
pub read_lines-ends :
    (lines : List Text)
    → ((d : Bool) × (read_lines lines ≡ reading_done d))
      ⊎ ((read_lines lines ≡ Reading.undefined) × (all_end_well lines ≡ false))
read_lines-ends lines = elim (Bool-cases (all_end_well lines)) [
  | inl well ↦ let (ts, _, reads) = read_lines-Sound lines well in inl (has_phrase ts, reads)
  | inr bad ↦ elim (Reading-cases (read_lines lines) (read_lines-stops lines)) [
    | inl ends ↦ inl ends
    | inr behind ↦ inr (behind, bad)
  ]
]

-- read_config_file, on a file of which no line ends in a backslash: conf.disallow_ppdev says whether
-- the phrase is among its words, and config_read stays unset, so that the next call reads the file
-- again. Where the first call finds no file, the second one does not look for it.
pub read_config_file-lem :
    (lines : List Text) (c : Config)
    → all_end_well lines ≡ true
    → c.config_read ≡ false
    → ((ts : List Text) × Lexes (get_token (at [] lines)) ts
        × (read_config_file (some lines) c
            ≡ some (record { disallow_ppdev = has_phrase ts; config_read = false })))
      × ((elim (read_config_file none c) [ none ↦ none | some d ↦ read_config_file (some lines) d ])
          ≡ some (record { disallow_ppdev = false; config_read = true }))
unfolding read_config_file
read_config_file-lem lines c well unread =
    let (ts, lexes, reads) = read_lines-Sound lines well in
    ((ts, lexes, rw unread (rw reads (rw unread refl))), rw unread refl)
