-- ===== src/Port/Transfer.antt =====
-- enum ieee1284_transfer_flags, ieee1284_open_flags and ieee1284_devid_flags of
-- include/ieee1284.h.in.
use libieee.Common.{ℕ}

abbrev pub excl : ℕ
excl = 0x01

abbrev pub fresh : ℕ
fresh = 0x02

abbrev pub nonblock : ℕ
nonblock = 0x01

abbrev pub swe : ℕ
swe = 0x04

abbrev pub rle : ℕ
rle = 0x08

abbrev pub fastepp : ℕ
fastepp = 0x10
