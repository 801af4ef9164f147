-- ===== src/Conf/Reader.antt =====
-- disallow, try_read_config_file and read_config_file of src/conf.c.
pub mod Phrase
pub mod Ends
pub mod RoundTrip
use libieee.Common.{
  Bool, List, Option, [], false, if◌then◌else◌, none, some, suc, true, zero, ℕ, ◌+◌,
}
use libieee.Conf.Lexer.{
  Lexer, Scan, at, end_of_file, get_token, scan, size_of_lines, token, undefined_read,
}
use libieee.Conf.Words.{text_eq, word_disallow, word_method, word_ppdev}
use libieee.Port.Machine.{Text}

-- How a reading of the file goes: get_token looks outside a line, and nothing is known of what the
-- source does then, not even that it ends; the rounds are used up; or the file is at its end.
pub data Reading : Type 0 where
  undefined still_reading : Reading
  reading_done : (disallow_ppdev : Bool) → Reading

-- disallow: the next token of the file, and conf.disallow_ppdev.
abbrev pub after_method : Bool → Scan → Scan × Bool
after_method conf (token t lexer) =
    if text_eq t word_ppdev then (get_token lexer, true) else (token t lexer, conf)
after_method conf scan = (scan, conf)

abbrev pub after_disallow : Bool → Scan → Scan × Bool
after_disallow conf (token t lexer) =
    if text_eq t word_method then after_method conf (get_token lexer) else (token t lexer, conf)
after_disallow conf scan = (scan, conf)

unfoldable pub disallow : Bool → Lexer → Scan × Bool
disallow conf lexer = after_disallow conf (get_token lexer)

-- The while loop of try_read_config_file, for at most so many rounds, from a token on.
unfoldable pub read_loop : ℕ → Bool → Scan → Reading
unfolding disallow
read_loop zero conf scan = Reading.still_reading
read_loop (suc k) conf undefined_read = Reading.undefined
read_loop (suc k) conf end_of_file = reading_done conf
read_loop (suc k) conf (token t lexer) =
    let known = (let (next, conf') = disallow conf lexer in read_loop k conf' next) in
    let skipped = read_loop k conf (get_token lexer) in
    if text_eq t word_disallow then known else skipped

unfoldable pub read_lines : List Text → Reading
unfolding read_loop
read_lines lines = read_loop (size_of_lines lines + 1) false (get_token (at [] lines))

-- conf.disallow_ppdev and the static variable config_read.
pub record Config : Type 0 where
  pub disallow_ppdev : Bool
  pub config_read : Bool

-- read_config_file, where `file` is what fopen and fgets make of /etc/ieee1284.conf: nothing if it
-- cannot be opened.
unfoldable pub read_config_file : Option (List Text) → Config → Option Config
unfolding read_lines
read_config_file file c = if c.config_read then some c else elim file [
  | none ↦ some (record { disallow_ppdev = false; config_read = true })
  | some lines ↦ elim (read_lines lines) [
    | reading_done d ↦ some (record c { disallow_ppdev = d })
    | _ ↦ none
  ]
]
