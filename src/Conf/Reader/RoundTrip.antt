-- ===== src/Conf/Reader/RoundTrip.antt =====
-- Words that are written with a backslash before each character: get_token of src/conf.c reads them
-- back.
use libieee.Common.{
  Bool, List, [], ap, arith, false, length, ltb, map, not, refl, true, ℕ, ◌&&◌, ◌++◌, ◌==◌, ◌||◌,
  ◌∙◌, ◌∷◌, ◌≡◌,
}
use libieee.Conf.Lexer.{
  at, found, get_token, get_token_at, outside, scan, skip_ifs, token, token_of, unquote,
}
use libieee.Conf.Reader.Phrase.{Lexes, lexes_end, lexes_word}
use libieee.Port.Machine.{Text}

unfoldable pub escape_all : Text → Text
escape_all [] = []
escape_all (c ∷ word) = 0x5c ∷ c ∷ escape_all word

-- A line with these words, a space after each, and the newline.
unfoldable pub line_of : List Text → Text
unfolding escape_all
line_of [] = 10 ∷ []
line_of (w ∷ ws) = escape_all w ++ (b' ' ∷ line_of ws)

abbrev pub none_empty : List Text → Bool
none_empty [] = true
none_empty ([] ∷ ws) = false
none_empty ((c ∷ w) ∷ ws) = none_empty ws

scan-escape_all :
    (first : Bool) (w rest : Text)
    → scan outside first (escape_all w ++ (b' ' ∷ rest))
      ≡ record { taken = escape_all w; rest = b' ' ∷ rest; over = false }
unfolding scan escape_all
scan-escape_all true [] [] = refl
scan-escape_all false [] [] = refl
scan-escape_all true [] (d ∷ rest) = refl
scan-escape_all false [] (d ∷ rest) = refl
scan-escape_all first (c ∷ w) rest = rw (scan-escape_all false w rest) refl

unquote-escape_all : (w : Text) → unquote outside (escape_all w) ≡ w
unfolding unquote escape_all
unquote-escape_all [] = refl
unquote-escape_all (c ∷ w) = rw (unquote-escape_all w) refl

-- A line as get_token sees it, once the white space is skipped.
token_of-line :
    (c : ℕ) (w rest : Text)
    → token_of (skip_ifs (escape_all (c ∷ w) ++ (b' ' ∷ rest))) ≡ found (c ∷ w) (b' ' ∷ rest)
unfolding token_of skip_ifs escape_all
token_of-line c w rest = rw (scan-escape_all false w rest) (rw (unquote-escape_all w) refl)

get_token_at-space :
    (line : Text) (lines : List Text) → get_token_at (b' ' ∷ line) lines ≡ get_token_at line lines
unfolding get_token_at skip_ifs
get_token_at-space line [] = refl
get_token_at-space line (l ∷ lines) = refl

-- An empty line, and the end of one.
get_token_at-newline : (lines : List Text) → get_token_at (10 ∷ []) lines ≡ get_token_at [] lines
unfolding get_token_at skip_ifs token_of
get_token_at-newline [] = refl
get_token_at-newline (l ∷ lines) = refl

get_token_at-word :
    (c : ℕ) (w rest : Text) (lines : List Text)
    → get_token_at (escape_all (c ∷ w) ++ (b' ' ∷ rest)) lines
      ≡ token (c ∷ w) (at (b' ' ∷ rest) lines)
unfolding get_token_at
get_token_at-word c w rest [] = rw (token_of-line c w rest) refl
get_token_at-word c w rest (l ∷ lines) = rw (token_of-line c w rest) refl

-- The words of a line, then the words of the lines after it.
line_of-Lexes :
    (ws ts : List Text) (lines : List Text)
    → none_empty ws ≡ true
    → Lexes (get_token (at [] lines)) ts
    → Lexes (get_token (at (line_of ws) lines)) (ws ++ ts)
unfolding line_of get_token
line_of-Lexes [] ts lines h lx = rw (get_token_at-newline lines) lx
line_of-Lexes ([] ∷ ws) ts lines h lx = absurd (cc)
line_of-Lexes ((c ∷ w) ∷ ws) ts lines h lx =
    rw (get_token_at-word c w (line_of ws) lines)
      (lexes_word (rw (get_token_at-space (line_of ws) lines) (line_of-Lexes ws ts lines h lx)))

abbrev pub each_none_empty : List (List Text) → Bool
each_none_empty [] = true
each_none_empty (ws ∷ wss) = none_empty ws && each_none_empty wss

abbrev pub concat : List (List Text) → List Text
concat [] = []
concat (ws ∷ wss) = ws ++ concat wss

concat-lines :
    (wss : List (List Text))
    → each_none_empty wss ≡ true
    → Lexes (get_token (at [] (map line_of wss))) (concat wss)
unfolding get_token
concat-lines [] h = lexes_end
concat-lines (ws ∷ wss) h =
    line_of-Lexes ws (concat wss) (map line_of wss) (ground (arith, h))
      (concat-lines wss (ground (arith, h)))

-- A line that fgets gives whole, newline and all: it has no other newline and no null character, and
-- fits in `max_line_len` bytes with the null character after it.
abbrev pub plain_text : Text → Bool
plain_text [] = true
plain_text (c ∷ text) = not (c == 0 || c == 10) && plain_text text

abbrev pub all_plain : List Text → Bool
all_plain [] = true
all_plain (w ∷ ws) = plain_text w && all_plain ws

abbrev pub fits : List Text → Bool
fits ws = all_plain ws && ltb (length (line_of ws)) 1000

abbrev pub each_fits : List (List Text) → Bool
each_fits [] = true
each_fits (ws ∷ wss) = fits ws && each_fits wss

-- fgets, called until it returns NULL: it gives the lines of a file one after the other.
pub record Fgets (fgets : Text → List Text) : Type 0 where
  pub ends : fgets [] ≡ []
  pub line :
      (ws : List Text) (rest : Text)
      → fits ws ≡ true
      → fgets (line_of ws ++ rest) ≡ line_of ws ∷ fgets rest

-- The bytes of a file with these words on its lines.
pub file_of : List (List Text) → Text
file_of [] = []
file_of (ws ∷ wss) = line_of ws ++ file_of wss

lines_of-file_of :
    (fgets : Text → List Text)
    → Fgets fgets
    → (wss : List (List Text)) → each_fits wss ≡ true
    → fgets (file_of wss) ≡ map line_of wss
unfolding file_of
lines_of-file_of fgets splits [] h = splits.ends
lines_of-file_of fgets splits (ws ∷ wss) h =
    splits.line ws (file_of wss) (ground (arith, h))
    ∙ ap (◌∷◌ (line_of ws)) (lines_of-file_of fgets splits wss (ground (arith, h)))

-- Words are written with a backslash before each character, a space after each word and a newline
-- after each line, on any number of lines: from that file get_token gives the same words again, in
-- their order and none else, if no word is empty or has a newline or a null character, and no line is
-- longer than 999 bytes. fgets gives such lines one by one.
pub concat-Lexes :
    (fgets : Text → List Text)
    → Fgets fgets
    → (wss : List (List Text)) → each_none_empty wss ≡ true
    → each_fits wss ≡ true
    → Lexes (get_token (at [] (fgets (file_of wss)))) (concat wss)
concat-Lexes fgets splits wss some_text short =
    rw (lines_of-file_of fgets splits wss short) (concat-lines wss some_text)
