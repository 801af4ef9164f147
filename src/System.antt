-- ===== src/System.antt =====
-- The parts together, as the library is built for Linux: what src/detect.c finds, the tables of
-- src/access_io.c and src/access_ppdev.c, the null table of src/access_lpt.c, and ieee1284_open of
-- src/state.c over them.
pub mod Opens
pub mod Files
pub mod Works
use libieee.Common.{ℕ}
use libieee.Lpt.{null_lpt_access_methods}
use libieee.Port.Host.{Host}
use libieee.Port.Machine.{Table}
use libieee.Port.Methods.{Methods}
use libieee.Tables.{access_methods}

-- The table that an open finds at `lpt_access_methods`.
abbrev pub linux_methods : {W : Type 0} → Host W → ℕ → Table → Methods W
linux_methods host rounds = access_methods host rounds null_lpt_access_methods
