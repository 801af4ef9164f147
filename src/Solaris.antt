-- ===== src/Solaris.antt =====
-- solaris_io/iop.c, the driver by which Solaris lets a process reach I/O ports, and the branches for
-- Solaris of src/access_io.c, which use it.
pub mod Driver
pub mod Access
use libieee.Common.{ℕ}

-- The commands that both files number.
abbrev pub iop_read : ℕ
iop_read = 1

abbrev pub iop_write : ℕ
iop_write = 2

-- struct iopbuf: an unsigned int and an unsigned char.
pub record IopBuf : Type 0 where
  pub port : ℕ
  pub port_value : ℕ
