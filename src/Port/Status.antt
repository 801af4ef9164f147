-- ===== src/Port/Status.antt =====
-- enum ieee1284_status_bits of include/ieee1284.h.in.
use libieee.Common.{ℕ}

abbrev pub nfault : ℕ
nfault = 0x08

abbrev pub select : ℕ
select = 0x10

abbrev pub perror : ℕ
perror = 0x20

abbrev pub nack : ℕ
nack = 0x40

abbrev pub busy : ℕ
busy = 0x80

abbrev pub inverted : ℕ
inverted = 0x80
