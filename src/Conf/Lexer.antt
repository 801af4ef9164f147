-- ===== src/Conf/Lexer.antt =====
-- get_token of src/conf.c. A file is the list of the lines that fgets gives, and the rest of the
-- current line stands for current_line, at and current_line_len.
pub mod Shrinks
pub mod Bounds
use libieee.Common.{
  Bool, List, [], false, if◌then◌else◌, length, true, ℕ, ◌&&◌, ◌+◌, ◌==◌, ◌||◌, ◌∷◌,
}
use libieee.Port.Machine.{Text}

-- The variable `quotes`: 0, 1 and 2.
pub data Quotes : Type 0 where
  outside single double : Quotes

abbrev pub is_ifs : ℕ → Bool
is_ifs c = c == b' ' || c == 9 || c == 10

abbrev pub is_tokenchar : ℕ → Bool
is_tokenchar c = c == b'{' || c == b'}' || c == b'='

-- `ch == '\\' && quotes != 1`
abbrev pub escapes : Quotes → ℕ → Bool
escapes single c = false
escapes _ c = c == 0x5c

-- Does the character open or close quotes?
abbrev pub is_quote : Quotes → ℕ → Bool
is_quote outside c = c == 0x27 || c == 0x22
is_quote single c = c == 0x27
is_quote double c = c == 0x22

abbrev pub after : Quotes → ℕ → Quotes
after outside c = if c == 0x27 then single else if c == 0x22 then double else outside
after single c = if c == 0x27 then outside else single
after double c = if c == 0x22 then outside else double

-- `!quotes && strchr (ifs, ch)`, or the same for tokenchar.
abbrev pub breaks : Quotes → ℕ → Bool
breaks outside c = is_ifs c || is_tokenchar c
breaks _ c = false

-- A token as it stands in the line, and what follows it. `over` says that the end of the token lies
-- past the end of the line.
pub record Raw : Type 0 where
  pub taken : Text
  pub rest : Text
  pub over : Bool

abbrev pub taking : ℕ → Raw → Raw
taking c r = record r { taken = c ∷ r.taken }

-- One character that is not escaped, before `line`; `raw` is what a scan of `line` finds.
abbrev pub plain_step : Quotes → Bool → ℕ → Text → Raw → Raw
plain_step quotes first c line raw =
    if breaks (after quotes c) c
    then (if first && is_tokenchar c
        then record { taken = c ∷ []; rest = line; over = false }
        else record { taken = []; rest = c ∷ line; over = false })
    else taking c raw

-- The for loop that finds the end of the token; `first` says that `end == at`.
unfoldable pub scan : Quotes → Bool → Text → Raw
scan quotes first [] = record { taken = []; rest = []; over = false }
scan quotes first (c ∷ []) =
    if escapes quotes c
    then record { taken = c ∷ []; rest = []; over = true }
    else plain_step quotes first c [] (record { taken = []; rest = []; over = false })
scan quotes first (c ∷ d ∷ line) =
    let escaped = taking c (taking d (scan quotes false line)) in
    let unescaped = plain_step quotes first c (d ∷ line) (scan (after quotes c) false (d ∷ line)) in
    if escapes quotes c then escaped else unescaped

-- The for loop that copies the token without its quotes and escapes.
unfoldable pub unquote : Quotes → Text → Text
unquote quotes [] = []
unquote quotes (c ∷ []) = if escapes quotes c || is_quote quotes c then [] else c ∷ []
unquote quotes (c ∷ d ∷ raw) =
    let escaped = d ∷ unquote quotes raw in
    let unescaped =
      (let rest = unquote (after quotes c) (d ∷ raw) in
        if is_quote quotes c then rest else c ∷ rest) in
    if escapes quotes c then escaped else unescaped

-- `at += strspn (current_line + at, ifs)`
unfoldable pub skip_ifs : Text → Text
skip_ifs [] = []
skip_ifs (c ∷ line) = if is_ifs c then skip_ifs line else c ∷ line

-- What one line has: no token any more, a token and what follows it, or one that ends past the line.
pub data InLine : Type 0 where
  nothing : InLine
  found : (token rest : Text) → InLine
  ran_over : (token : Text) → InLine

abbrev pub in_line : Raw → InLine
in_line r =
    if r.over then ran_over (unquote outside r.taken) else found (unquote outside r.taken) r.rest

-- A line without the white space at its start.
unfoldable pub token_of : Text → InLine
unfolding scan unquote
token_of [] = nothing
token_of (c ∷ line) = if c == b'#' then nothing else in_line (scan outside true (c ∷ line))

-- Where the file stands: in a line with these lines after it, or past the end of a line.
pub data Lexer : Type 0 where
  at : (line : Text) (lines : List Text) → Lexer
  overrun : Lexer

-- The result of get_token: NULL, a token, or a read outside the line.
pub data Scan : Type 0 where
  undefined_read : Scan
  end_of_file : Scan
  token : Text → Lexer → Scan

abbrev pub or_next : InLine → List Text → Scan → Scan
or_next nothing lines scan = scan
or_next (found t rest) lines scan = token t (at rest lines)
or_next (ran_over t) lines scan = token t overrun

unfoldable pub get_token_at : Text → List Text → Scan
unfolding token_of skip_ifs
get_token_at line [] = or_next (token_of (skip_ifs line)) [] end_of_file
get_token_at line (l ∷ lines) =
    or_next (token_of (skip_ifs line)) (l ∷ lines) (get_token_at l lines)

unfoldable pub get_token : Lexer → Scan
unfolding get_token_at
get_token (at line lines) = get_token_at line lines
get_token overrun = undefined_read

-- The characters of a file that are not read yet.
abbrev pub size_of_lines : List Text → ℕ
size_of_lines [] = 0
size_of_lines (l ∷ lines) = length l + size_of_lines lines
