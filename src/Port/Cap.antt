-- ===== src/Port/Cap.antt =====
-- enum ieee1284_capabilities of include/ieee1284.h.in.
use libieee.Common.{ℕ}

abbrev pub raw : ℕ
raw = 0x001

abbrev pub nibble : ℕ
nibble = 0x002

abbrev pub byte : ℕ
byte = 0x004

abbrev pub compat : ℕ
compat = 0x008

abbrev pub becp : ℕ
becp = 0x010

abbrev pub ecp : ℕ
ecp = 0x020

abbrev pub ecprle : ℕ
ecprle = 0x040

abbrev pub ecpswe : ℕ
ecpswe = 0x080

abbrev pub epp : ℕ
epp = 0x100

abbrev pub eppsl : ℕ
eppsl = 0x200

abbrev pub eppswe : ℕ
eppswe = 0x400

abbrev pub irq : ℕ
irq = 0x800

abbrev pub dma : ℕ
dma = 0x1000
