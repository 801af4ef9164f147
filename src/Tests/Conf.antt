-- ===== src/Tests/Conf.antt =====
-- Configuration files, and the theorems about them at inputs that meet their hypotheses.
use libieee.Common.{
  Bool, List, [], append_assoc, arith, false, if◌then◌else◌, none, refl, some, true, ℕ, ◌++◌, ◌==◌,
  ◌∷◌, ◌≡◌, ◌⊎◌,
}
use libieee.Conf.Lexer.{at, get_token}
use libieee.Conf.Lexer.Bounds.{all_end_well, ends_well}
use libieee.Conf.Reader.{Reading, read_config_file, read_lines, reading_done}
use libieee.Conf.Reader.Ends.{read_config_file-lem, read_lines-ends}
use libieee.Conf.Reader.Phrase.{Lexes, has_phrase, lexes_end, lexes_word, read_lines-phrase}
use libieee.Conf.Reader.RoundTrip.{
  Fgets, all_plain, concat-Lexes, each_fits, escape_all, file_of, line_of, plain_text,
}
use libieee.Conf.Words.{word_disallow, word_method, word_ppdev}
use libieee.Port.Machine.{Text}

abbrev newline : Text
newline = 10 ∷ []

-- A phrase after words that look like one, and a comment.
abbrev two_lines : List Text
two_lines =
    (b'#' ∷ b' ' ∷ word_disallow ++ newline)
    ∷ (word_disallow
        ++ (b' ' ∷ word_disallow
            ++ (b' ' ∷ 0x27 ∷ word_method ++ (0x27 ∷ b' ' ∷ word_ppdev ++ newline))))
    ∷ []

two_lines_words :
    Lexes
      (get_token (at [] two_lines))
      (word_disallow ∷ word_disallow ∷ word_method ∷ word_ppdev ∷ [])
unfolding get_token
two_lines_words = lexes_word (lexes_word (lexes_word (lexes_word lexes_end)))

read_lines-phrase_example : read_lines two_lines ≡ reading_done true
unfolding has_phrase
read_lines-phrase_example =
    read_lines-phrase two_lines (word_disallow ∷ word_disallow ∷ word_method ∷ word_ppdev ∷ [])
      two_lines_words

two_lines-end_well : all_end_well two_lines ≡ true
unfolding ends_well
two_lines-end_well = refl

-- A line that ends in a backslash: get_token looks behind it.
read_lines-ends_example :
    ((d : Bool) × (read_lines ((0x5c ∷ []) ∷ []) ≡ reading_done d))
    ⊎ ((read_lines ((0x5c ∷ []) ∷ []) ≡ Reading.undefined)
        × (all_end_well ((0x5c ∷ []) ∷ []) ≡ false))
read_lines-ends_example = read_lines-ends ((0x5c ∷ []) ∷ [])

behind : read_lines ((0x5c ∷ []) ∷ []) ≡ Reading.undefined
unfolding read_lines get_token
behind = refl

read_config_file-lem_example :
    ((ts : List Text) × Lexes (get_token (at [] two_lines)) ts
      × (read_config_file (some two_lines) (record { disallow_ppdev = false; config_read = false })
          ≡ some (record { disallow_ppdev = has_phrase ts; config_read = false })))
    × ((elim (read_config_file none (record { disallow_ppdev = false; config_read = false })) [
      | none ↦ none
      | some d ↦ read_config_file (some two_lines) d
    ])
        ≡ some (record { disallow_ppdev = false; config_read = true }))
read_config_file-lem_example =
    read_config_file-lem two_lines (record { disallow_ppdev = false; config_read = false })
      two_lines-end_well refl

-- Words that need the backslashes, on two lines.
abbrev hard_words : List (List Text)
hard_words = ((b'a' ∷ b' ' ∷ b'#' ∷ []) ∷ (0x27 ∷ []) ∷ []) ∷ (word_ppdev ∷ []) ∷ []

-- Lines as fgets gives them, from a file in which none is too long for the buffer.
abbrev before_line : ℕ → List Text → List Text
before_line c [] = (c ∷ []) ∷ []
before_line c (line ∷ lines) = (c ∷ line) ∷ lines

split : Text → List Text
split [] = []
split (c ∷ text) = let rest = split text in if c == 10 then (c ∷ []) ∷ rest else before_line c rest

split-word :
    (w x l : Text) (ls : List Text)
    → plain_text w ≡ true
    → split x ≡ l ∷ ls
    → split (escape_all w ++ (b' ' ∷ x)) ≡ (escape_all w ++ (b' ' ∷ l)) ∷ ls
unfolding split escape_all
split-word [] x l ls h e = rw e refl
split-word (c ∷ w) x l ls h e =
    let other : (c == 10) ≡ false = ground (arith, h) in
    let more : plain_text w ≡ true = ground (arith, h) in
    rw (split-word w x l ls more e, other) refl

split-line :
    (ws : List Text) (rest : Text)
    → all_plain ws ≡ true
    → split (line_of ws ++ rest) ≡ line_of ws ∷ split rest
unfolding split line_of
split-line [] rest h = refl
split-line (w ∷ ws) rest h =
    let of_word : plain_text w ≡ true = ground (arith, h) in
    let of_words : all_plain ws ≡ true = ground (arith, h) in
    rw (append_assoc (escape_all w) (b' ' ∷ line_of ws) rest) (
      split-word w (line_of ws ++ rest) (line_of ws) (split rest) of_word
        (split-line ws rest of_words))

split-Fgets : Fgets split
unfolding split
split-Fgets = record { ends = refl; line = λ ws rest h. split-line ws rest (ground (arith, h)) }

short : each_fits hard_words ≡ true
unfolding line_of
short = refl

concat-Lexes_example :
    Lexes
      (get_token (at [] (split (file_of hard_words))))
      ((b'a' ∷ b' ' ∷ b'#' ∷ []) ∷ (0x27 ∷ []) ∷ word_ppdev ∷ [])
concat-Lexes_example = concat-Lexes split split-Fgets hard_words refl short
