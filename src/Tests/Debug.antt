-- ===== src/Tests/Debug.antt =====
-- The lines of src/debug.c for a few values, and the theorem on them.
use libieee.Common.{List, Option, [], none, refl, some, true, ◌∷◌, ◌≡◌}
use libieee.Debug.{Surroundings, control_line, initial, status_line, timeofday}
use libieee.Debug.Told.{Call, control, displays-Told, frob, given, run_calls, status, told}
use libieee.Port.Machine.{Text}

abbrev asked : Surroundings
asked = record { getenv = true; stderr_open = true }

abbrev noon : Option (Text × Text)
noon = some (b'1' ∷ b'2' ∷ b'.' ∷ [], b'5' ∷ [])

-- Statuses, and frobs of the control lines between them: the second frob strobes, and the last leaves
-- the lines as they are.
abbrev some_calls : List Call
some_calls =
    status noon 0xff
    ∷ control none 0x0c
    ∷ status noon 0x7f
    ∷ frob noon 0x01 0x01
    ∷ status noon 0x7f
    ∷ frob noon 0x02 0
    ∷ []

some_lines :
    told 0xff 0xff some_calls
    ≡ control_line [] 0x0c
      ∷ status_line (b'1' ∷ b'2' ∷ b'.' ∷ b'5' ∷ []) 0x7f
      ∷ control_line (b'1' ∷ b'2' ∷ b'.' ∷ b'5' ∷ []) 0x0d
      ∷ []
unfolding told timeofday
some_lines = refl

displays-Told_example :
    ((run_calls asked some_calls initial).0 ≡ 0xff ∷ 0x0c ∷ 0x7f ∷ 0x7f ∷ [])
    × ((run_calls asked some_calls initial).1.stderr ≡ told 0xff 0xff some_calls)
unfolding given
displays-Told_example = displays-Told asked some_calls
