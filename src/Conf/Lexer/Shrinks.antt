-- ===== src/Conf/Lexer/Shrinks.antt =====
-- get_token of src/conf.c takes characters of the file away, at least one for each token.
use libieee.Common.{Bool, List, [], arith, false, length, suc, true, ℕ, ◌+◌, ◌∷◌, ◌≡◌, ◌≤◌}
use libieee.Conf.Lexer.{
  InLine, Lexer, Quotes, Scan, after, at, end_of_file, found, get_token, get_token_at, is_ifs,
  nothing, or_next, outside, overrun, ran_over, scan, size_of_lines, skip_ifs, token, token_of,
}
use libieee.Port.Machine.{Text}

abbrev pub size_of : Lexer → ℕ
size_of (at line lines) = length line + size_of_lines lines
size_of overrun = 0

-- What a scan has still to read, and one for its token.
abbrev pub size_after : Scan → ℕ
size_after (token t lexer) = suc (size_of lexer)
size_after _ = 0

scan-rest :
    (q : Quotes) (first : Bool) (line : Text) → length ((scan q first line).rest) ≤ length line
unfolding scan
scan-rest q first [] = omega arith
scan-rest q first (c ∷ []) = ground arith
scan-rest q first (c ∷ d ∷ line) =
    ground (arith, scan-rest q false line, scan-rest (after q c) false (d ∷ line))

scan-shrinks :
    (c : ℕ) (line : Text)
    → is_ifs c ≡ false
    → length ((scan outside true (c ∷ line)).rest) ≤ length line
unfolding scan
scan-shrinks c [] h = ground arith
scan-shrinks c (d ∷ line) h =
    ground (arith, scan-rest outside false line, scan-rest (after outside c) false (d ∷ line))

skip_ifs-length : (line : Text) → length (skip_ifs line) ≤ length line
unfolding skip_ifs
skip_ifs-length [] = omega arith
skip_ifs-length (c ∷ line) = ground (arith, skip_ifs-length line)

-- The characters after the token of a line, and one for the token.
abbrev in_line_size : InLine → ℕ
in_line_size (found t rest) = suc (length rest)
in_line_size (ran_over t) = 1
in_line_size nothing = 0

token_of-skip_ifs : (line : Text) → in_line_size (token_of (skip_ifs line)) ≤ length line
unfolding skip_ifs token_of
token_of-skip_ifs [] = omega arith
token_of-skip_ifs (c ∷ line) = ground (arith, token_of-skip_ifs line, scan-shrinks c line)

or_next-size :
    (i : InLine) (lines : List Text) (s : Scan)
    → size_after s ≤ size_of_lines lines
    → size_after (or_next i lines s) ≤ in_line_size i + size_of_lines lines
or_next-size nothing lines s h = omega arith
or_next-size (found t rest) lines s h = omega arith
or_next-size (ran_over t) lines s h = omega arith

get_token_at-size :
    (line : Text) (lines : List Text)
    → size_after (get_token_at line lines) ≤ length line + size_of_lines lines
unfolding get_token_at
get_token_at-size line [] = omega (
  arith,
  or_next-size (token_of (skip_ifs line)) [] end_of_file (omega arith),
  token_of-skip_ifs line,
)
get_token_at-size line (l ∷ lines) = omega (
  arith,
  or_next-size (token_of (skip_ifs line)) (l ∷ lines) (get_token_at l lines)
      (get_token_at-size l lines),
  token_of-skip_ifs line,
)

pub get_token-size : (lexer : Lexer) → size_after (get_token lexer) ≤ size_of lexer
unfolding get_token
get_token-size (at line lines) = get_token_at-size line lines
get_token-size overrun = omega arith
