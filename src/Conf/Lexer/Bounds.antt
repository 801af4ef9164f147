-- ===== src/Conf/Lexer/Bounds.antt =====
-- get_token of src/conf.c reads inside its line, if the line does not end in a backslash.
use libieee.Common.{
  Bool, Bool-cases, List, [], arith, false, inl, inr, not, refl, true, ℕ, ◌&&◌, ◌==◌, ◌∷◌, ◌≡◌,
}
use libieee.Conf.Lexer.{
  InLine, Lexer, Quotes, Raw, Scan, after, at, double, end_of_file, escapes, found, get_token,
  get_token_at, in_line, nothing, or_next, outside, overrun, plain_step, ran_over, scan, single,
  skip_ifs, token, token_of, undefined_read,
}
use libieee.Port.Machine.{Text}

-- Does the line end in another character than a backslash?
unfoldable pub ends_well : Text → Bool
ends_well [] = true
ends_well (c ∷ []) = not (c == 0x5c)
ends_well (c ∷ d ∷ line) = ends_well (d ∷ line)

abbrev pub all_end_well : List Text → Bool
all_end_well [] = true
all_end_well (l ∷ lines) = ends_well l && all_end_well lines

tail_ends_well : (c : ℕ) (line : Text) → ends_well (c ∷ line) ≡ true → ends_well line ≡ true
unfolding ends_well
tail_ends_well c [] h = refl
tail_ends_well c (d ∷ line) h = h

no_escape : (q : Quotes) (c : ℕ) → not (c == 0x5c) ≡ true → escapes q c ≡ false
no_escape outside c h = ground arith
no_escape single c h = refl
no_escape double c h = ground arith

-- What is left of a line is all right if the line is, and the token ends inside the line.
Inside : Raw → Type 0
Inside r = (r.over ≡ false) × (ends_well r.rest ≡ true)

plain_step-Inside :
    (q : Quotes) (first : Bool) (c : ℕ) (line : Text) (r : Raw)
    → ends_well (c ∷ line) ≡ true
    → Inside r
    → Inside (plain_step q first c line r)
unfolding Inside
plain_step-Inside q first c line r h (inside, well) =
    let rest_well : ends_well line ≡ true = tail_ends_well c line h in (ground arith, ground arith)

scan-Inside :
    (q : Quotes) (first : Bool) (line : Text) → ends_well line ≡ true → Inside (scan q first line)
unfolding scan Inside ends_well
scan-Inside q first [] h = (refl, refl)
scan-Inside q first (c ∷ []) h =
    rw (no_escape q c h) (plain_step-Inside q first c [] _ h (refl, refl))
scan-Inside q first (c ∷ d ∷ line) h = elim (Bool-cases (escapes q c)) [
  | inl special ↦
      let (inside, well) = scan-Inside q false line (tail_ends_well d line h) in
      rw special (inside, well)
  | inr usual ↦
      rw usual
        (plain_step-Inside q first c (d ∷ line) _ h (scan-Inside (after q c) false (d ∷ line) h))
]

skip_ifs-ends_well : (line : Text) → ends_well line ≡ true → ends_well (skip_ifs line) ≡ true
unfolding skip_ifs
skip_ifs-ends_well [] h = h
skip_ifs-ends_well (c ∷ line) h =
    ground (arith, h, skip_ifs-ends_well line (tail_ends_well c line h))

-- A line gives no token, or one after which the rest of the line ends well.
abbrev StaysIn : InLine → Type 0
StaysIn nothing = nothing ≡ nothing
StaysIn (found t rest) = ends_well rest ≡ true
StaysIn (ran_over t) = true ≡ false

in_line-StaysIn : (r : Raw) → Inside r → StaysIn (in_line r)
unfolding Inside
in_line-StaysIn r (inside, well) = rw inside well

token_of-StaysIn : (line : Text) → ends_well line ≡ true → StaysIn (token_of line)
unfolding token_of
token_of-StaysIn [] h = refl
token_of-StaysIn (c ∷ line) h = elim (Bool-cases (c == b'#')) [
  | inl special ↦ rw special refl
  | inr usual ↦ rw usual (in_line-StaysIn _ (scan-Inside outside true (c ∷ line) h))
]

-- A file whose lines end well, and the result of get_token in one.
abbrev pub Sound : Lexer → Type 0
Sound (at line lines) = (ends_well line ≡ true) × (all_end_well lines ≡ true)
Sound overrun = true ≡ false

abbrev pub SoundScan : Scan → Type 0
SoundScan end_of_file = end_of_file ≡ end_of_file
SoundScan (token t l) = Sound l
SoundScan undefined_read = true ≡ false

or_next-Sound :
    (i : InLine) (lines : List Text) (s : Scan)
    → StaysIn i
    → all_end_well lines ≡ true
    → SoundScan s
    → SoundScan (or_next i lines s)
or_next-Sound nothing lines s stays well sound = sound
or_next-Sound (found t rest) lines s stays well sound = (stays, well)
or_next-Sound (ran_over t) lines s stays well sound = stays

get_token_at-Sound :
    (line : Text) (lines : List Text)
    → ends_well line ≡ true
    → all_end_well lines ≡ true
    → SoundScan (get_token_at line lines)
unfolding get_token_at
get_token_at-Sound line [] h well =
    or_next-Sound _ [] end_of_file (token_of-StaysIn _ (skip_ifs-ends_well line h)) refl refl
get_token_at-Sound line (l ∷ lines) h well =
    let first_well : ends_well l ≡ true = ground (arith, well) in
    let rest_well : all_end_well lines ≡ true = ground (arith, well) in
    or_next-Sound _ (l ∷ lines) (get_token_at l lines)
      (token_of-StaysIn _ (skip_ifs-ends_well line h)) well
      (get_token_at-Sound l lines first_well rest_well)

pub get_token-Sound : (l : Lexer) → Sound l → SoundScan (get_token l)
unfolding get_token
get_token-Sound (at line lines) (h, well) = get_token_at-Sound line lines h well
get_token-Sound overrun h = absurd (cc)
