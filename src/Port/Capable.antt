-- ===== src/Port/Capable.antt =====
-- The access mechanisms of src/detect.h, as bits of the global `capabilities`.
use libieee.Common.{ℕ}

abbrev pub io : ℕ
io = 0x01

abbrev pub ppdev : ℕ
ppdev = 0x02

abbrev pub proc_parport : ℕ
proc_parport = 0x04

abbrev pub proc_sys_dev_parport : ℕ
proc_sys_dev_parport = 0x08

abbrev pub dev_lp : ℕ
dev_lp = 0x10

abbrev pub dev_port : ℕ
dev_port = 0x20

abbrev pub lpt : ℕ
lpt = 0x40
