-- ===== src/Ppdev/Parport.antt =====
-- The numbers of src/parport.h and src/ppdev.h that src/access_ppdev.c uses.
use libieee.Common.{ℕ}

abbrev pub has_pcspp : ℕ
has_pcspp = 0x01

abbrev pub has_tristate : ℕ
has_tristate = 0x02

abbrev pub has_epp : ℕ
has_epp = 0x04

abbrev pub has_ecp : ℕ
has_ecp = 0x08

abbrev pub has_dma : ℕ
has_dma = 0x20

-- IEEE1284_ADDR and IEEE1284_DATA, flags of a mode
abbrev pub addr_flag : ℕ
addr_flag = 0x2000

abbrev pub data_flag : ℕ
data_flag = 0x0000

abbrev pub fast_write : ℕ
fast_write = 0x04

abbrev pub fast_read : ℕ
fast_read = 0x08
