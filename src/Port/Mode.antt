-- ===== src/Port/Mode.antt =====
-- enum ieee1284_modes of include/ieee1284.h.in.
use libieee.Common.{ℕ}

abbrev pub nibble : ℕ
nibble = 0

abbrev pub byte : ℕ
byte = 0x01

abbrev pub compat : ℕ
compat = 0x100

abbrev pub becp : ℕ
becp = 0x200

abbrev pub ecp : ℕ
ecp = 0x10

abbrev pub ecprle : ℕ
ecprle = 0x30

abbrev pub ecpswe : ℕ
ecpswe = 0x400

abbrev pub epp : ℕ
epp = 0x40

abbrev pub eppsl : ℕ
eppsl = 0x800

abbrev pub eppswe : ℕ
eppswe = 0x1000

abbrev pub flag_deviceid : ℕ
flag_deviceid = 0x04

abbrev pub flag_ext_link : ℕ
flag_ext_link = 0x4000
