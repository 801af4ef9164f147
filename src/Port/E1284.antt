-- ===== src/Port/E1284.antt =====
-- enum E1284 of include/ieee1284.h.in.
use libieee.Common.{negsuc, pos, ℤ}

abbrev pub ok : ℤ
ok = pos 0

abbrev pub notimpl : ℤ
notimpl = negsuc 0

abbrev pub notavail : ℤ
notavail = negsuc 1

abbrev pub timedout : ℤ
timedout = negsuc 2

abbrev pub rejected : ℤ
rejected = negsuc 3

abbrev pub negfailed : ℤ
negfailed = negsuc 4

abbrev pub nomem : ℤ
nomem = negsuc 5

abbrev pub init : ℤ
init = negsuc 6

abbrev pub sys : ℤ
sys = negsuc 7

abbrev pub noid : ℤ
noid = negsuc 8

abbrev pub invalidport : ℤ
invalidport = negsuc 9
