-- ===== src/Debug.antt =====
-- src/debug.c, but for MinGW and MSVC: the lines that it prints when the environment asks for them.
-- A line is the bytes that vfprintf writes for it.
pub mod Told
use libieee.Port.Control
use libieee.Port.Status
use libieee.Common.{
  Bool, List, Option, [], complement, false, if◌then◌else◌, meets, none, some, true, ℕ, ◌&&◌, ◌++◌,
  ◌==◌, ◌||◌, ◌∩◌, ◌∷◌, ◌⊖◌,
}
use libieee.Port.Machine.{Text}

-- `debugging_enabled`, by its values -1, 0 and 1.
pub data Enabled : Type 0 where
  undecided disabled enabled : Enabled

-- The static variables, and what stderr has been given.
pub record Debug : Type 0 where
  pub debugging_enabled : Enabled
  pub soft_ctr : ℕ
  pub last_status : ℕ
  pub stderr : List Text

-- Whether getenv finds LIBIEEE1284_DEBUG, and whether fcntl finds stderr open.
pub record Surroundings : Type 0 where
  pub getenv : Bool
  pub stderr_open : Bool

abbrev pub is_disabled : Enabled → Bool
is_disabled undecided = false
is_disabled disabled = true
is_disabled enabled = false

-- `clock` is what strftime and sprintf write of the time, if gettimeofday tells it.
unfoldable pub timeofday : (clock : Option (Text × Text)) → Text
timeofday none = []
timeofday (some (hms, usec)) = hms ++ usec

-- `st & wire ? ' ' : '!'`, for one of the bits.
abbrev pub mark : ℕ → ℕ → ℕ
mark st wire = if meets st wire then b' ' else b'!'

-- What stands between the directives of the two format strings.
abbrev status_word : Text
status_word = b' ' ∷ b'S' ∷ b'T' ∷ b'A' ∷ b'T' ∷ b'U' ∷ b'S' ∷ b':' ∷ b' ' ∷ []

abbrev nfault_word : Text
nfault_word = b'n' ∷ b'F' ∷ b'a' ∷ b'u' ∷ b'l' ∷ b't' ∷ b' ' ∷ []

abbrev select_word : Text
select_word = b'S' ∷ b'e' ∷ b'l' ∷ b'e' ∷ b'c' ∷ b't' ∷ b' ' ∷ []

abbrev perror_word : Text
perror_word = b'P' ∷ b'E' ∷ b'r' ∷ b'r' ∷ b'o' ∷ b'r' ∷ b' ' ∷ []

abbrev nack_word : Text
nack_word = b'n' ∷ b'A' ∷ b'c' ∷ b'k' ∷ b' ' ∷ []

abbrev busy_word : Text
busy_word = b'B' ∷ b'u' ∷ b's' ∷ b'y' ∷ 10 ∷ []

abbrev control_word : Text
control_word = b' ' ∷ b'C' ∷ b'O' ∷ b'N' ∷ b'T' ∷ b'R' ∷ b'O' ∷ b'L' ∷ b':' ∷ b' ' ∷ []

abbrev nstrobe_word : Text
nstrobe_word = b'n' ∷ b'S' ∷ b't' ∷ b'r' ∷ b'o' ∷ b'b' ∷ b'e' ∷ b' ' ∷ []

abbrev nautofd_word : Text
nautofd_word = b'n' ∷ b'A' ∷ b'u' ∷ b't' ∷ b'o' ∷ b'F' ∷ b'd' ∷ b' ' ∷ []

abbrev ninit_word : Text
ninit_word = b'n' ∷ b'I' ∷ b'n' ∷ b'i' ∷ b't' ∷ b' ' ∷ []

abbrev nselectin_word : Text
nselectin_word = b'n' ∷ b'S' ∷ b'e' ∷ b'l' ∷ b'e' ∷ b'c' ∷ b't' ∷ b'I' ∷ b'n' ∷ 10 ∷ []

-- The lines that debug_display_status and debug_display_control format.
unfoldable pub status_line : (now : Text) (st : ℕ) → Text
status_line now st =
    now
    ++ status_word
    ++ (mark st Status.nfault ∷ nfault_word)
    ++ (mark st Status.select ∷ select_word)
    ++ (mark st Status.perror ∷ perror_word)
    ++ (mark st Status.nack ∷ nack_word)
    ++ (mark st Status.busy ∷ busy_word)

unfoldable pub control_line : (now : Text) (ct : ℕ) → Text
control_line now ct =
    now
    ++ control_word
    ++ (mark ct Control.nstrobe ∷ nstrobe_word)
    ++ (mark ct Control.nautofd ∷ nautofd_word)
    ++ (mark ct Control.ninit ∷ ninit_word)
    ++ (mark ct Control.nselectin ∷ nselectin_word)

module _ (around : Surroundings) where
  -- The value of debugging_enabled when debugprintf comes to vfprintf or returns.
  abbrev pub decide : Enabled → Enabled
  decide undecided = if around.getenv && around.stderr_open then enabled else disabled
  decide disabled = disabled
  decide enabled = enabled

  unfoldable pub debugprintf : Text → Debug → Debug
  debugprintf line d =
      let now = decide d.debugging_enabled in
      record d {
        debugging_enabled = now;
        stderr = if is_disabled now then d.stderr else d.stderr ++ (line ∷ []);
      }

  unfoldable pub debug_display_status : Option (Text × Text) → (st : ℕ) → Debug → ℕ × Debug
  unfolding debugprintf timeofday status_line
  debug_display_status clock st d =
      if is_disabled d.debugging_enabled || d.last_status == st
      then (st, d)
      else (st, debugprintf (status_line (timeofday clock) st) (record d { last_status = st }))

  unfoldable pub debug_display_control : Option (Text × Text) → (ct : ℕ) → Debug → ℕ × Debug
  unfolding debugprintf timeofday control_line
  debug_display_control clock ct d =
      if is_disabled d.debugging_enabled || d.soft_ctr == ct
      then (ct, d)
      else (ct, debugprintf (control_line (timeofday clock) ct) (record d { soft_ctr = ct }))

  -- `mask` and `val` are unsigned chars.
  unfoldable pub debug_frob_control : Option (Text × Text) → (mask val : ℕ) → Debug → Debug
  unfolding debug_display_control
  debug_frob_control clock mask val d =
      if is_disabled d.debugging_enabled
      then d
      else (debug_display_control clock ((d.soft_ctr ∩ complement mask) ⊖ val) d).1

-- The static variables as they are at the start.
abbrev pub initial : Debug
initial = record { debugging_enabled = undecided; soft_ctr = 0xff; last_status = 0xff; stderr = [] }
