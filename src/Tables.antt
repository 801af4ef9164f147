-- ===== src/Tables.antt =====
-- The tables of methods that an open may copy into a port: those of src/access_ppdev.c and
-- src/access_io.c. The one of src/access_lpt.c is a parameter, as the build decides which of the two
-- in that file it is.
pub mod Lifetime
use libieee.Ppdev.Blocks
use libieee.Common.{none, ℕ}
use libieee.Io.{
  cleanup, data_dir, frob_control, init, io_access_methods, read_control, read_data, read_status,
  wait_status, write_control, write_data,
}
use libieee.Port.Host.{Host}
use libieee.Port.Machine.{Table}
use libieee.Port.Methods.{Methods}
use libieee.Port.Run.{Run, crash}
use libieee.Ppdev.Blocks.{
  byte_read, compat_write, ecp_read_data, ecp_write_addr, ecp_write_data, epp_read_addr,
  epp_read_data, epp_write_addr, epp_write_data, nibble_read, set_timeout,
}
use libieee.Ppdev.Modes.{negotiate}
use libieee.Ppdev.Opening.{claim, release}
use libieee.Ppdev.Pins.{clear_irq, do_nack_handshake, get_irq_fd}

module _ {W : Type 0} where
  abbrev null : {A : Type 0} → Run W A
  null s = crash

  -- The table before the first open, where every pointer is NULL.
  abbrev pub zeroed_methods : Methods W
  zeroed_methods = record {
    init = λ flags caps. null;
    cleanup = none;
    claim = none;
    release = none;
    get_irq_fd = none;
    clear_irq = none;
    pins = record {
      read_data = none;
      write_data = λ reg. null;
      data_dir = none;
      read_status = null;
      wait_status = λ mask val timeout. null;
      read_control = null;
      write_control = λ reg. null;
      frob_control = λ mask val. null;
    };
    wait_data = λ mask val timeout. null;
    do_nack_handshake = λ ct_before ct_after timeout. null;
    negotiate = λ mode. null;
    terminate = null;
    ecp_fwd_to_rev = null;
    ecp_rev_to_fwd = null;
    nibble_read = λ flags len. null;
    compat_write = λ flags buffer. null;
    byte_read = λ flags len. null;
    epp_read_data = λ flags len. null;
    epp_write_data = λ flags buffer. null;
    epp_read_addr = λ flags len. null;
    epp_write_addr = λ flags buffer. null;
    ecp_read_data = λ flags len. null;
    ecp_write_data = λ flags buffer. null;
    ecp_read_addr = λ flags len. null;
    ecp_write_addr = λ flags buffer. null;
    set_timeout = λ timeout. null;
  }

module _ {W : Type 0} (host : Host W) (rounds : ℕ) (lpt_methods : Methods W) where
  abbrev pub access_methods : Table → Methods W
  access_methods Table.zeroed = zeroed_methods
  access_methods (Table.ppdev_access_methods own_nack) =
      Blocks.ppdev_access_methods host rounds own_nack
  access_methods (Table.io_access_methods file_io) = io_access_methods host rounds
  access_methods Table.lpt_access_methods = lpt_methods
