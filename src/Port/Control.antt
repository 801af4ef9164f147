-- ===== src/Port/Control.antt =====
-- enum ieee1284_control_bits of include/ieee1284.h.in.
use libieee.Common.{ℕ}

abbrev pub nstrobe : ℕ
nstrobe = 0x01

abbrev pub nautofd : ℕ
nautofd = 0x02

abbrev pub ninit : ℕ
ninit = 0x04

abbrev pub nselectin : ℕ
nselectin = 0x08

-- nStrobe, nAutoFd and nSelectIn.
abbrev pub inverted : ℕ
inverted = 0x0b

-- The four control pins, the masks `wm` and `rm` of the access methods.
abbrev pub pins : ℕ
pins = 0x0f

-- The bit of the control register that turns the data lines round.
abbrev pub reverse : ℕ
reverse = 0x20
