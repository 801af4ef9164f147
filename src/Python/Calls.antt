-- ===== src/Python/Calls.antt =====
-- Parport_methods of src/ieee1284module.c: the calls that a Python program can make on a port.
pub mod Replies
pub mod Raised
use libieee.Common.{Bool, List, ℕ, ℤ}
use libieee.DeviceId.{Reader}
use libieee.Port.Machine.{Table, Text}
use libieee.Port.Methods.{Methods}
use libieee.Port.Run.{Run}
use libieee.Python.{Floats, Leftover, Parsed, Reply}
use libieee.Python.Methods.{
  parport_claim, parport_clear_irq, parport_close, parport_data_dir, parport_ecp_fwd_to_rev,
  parport_ecp_rev_to_fwd, parport_frob_control, parport_get_deviceid, parport_get_irq_fd,
  parport_negotiate, parport_open, parport_read_control, parport_read_data, parport_read_status,
  parport_release, parport_set_timeout, parport_terminate, parport_wait_status,
  parport_write_control, parport_write_data,
}
use libieee.Python.Transfers.{Read, Write, parport_read, parport_write}

-- A call, with its arguments.
pub data Call (F : Type 0) : Type 0 where
  get_deviceid : Parsed (ℤ × ℕ) → Call F
  open_port negotiate data_dir write_data write_control : Parsed ℕ → Call F
  close get_irq_fd clear_irq claim release read_data read_status read_control : Call F
  terminate ecp_fwd_to_rev ecp_rev_to_fwd : Call F
  wait_status : Parsed (ℕ × ℕ × F) → Call F
  frob_control : Parsed (ℕ × ℕ) → Call F
  set_timeout : Parsed F → Call F
  read : Read → Parsed (ℕ × ℕ) → Call F
  write : Write → Parsed (List ℕ × ℕ) → Call F

-- What a call uses besides the port: the globals of src/detect.c and src/conf.c, the files, the
-- port's name, and what stands in variables.
pub record Surroundings (W F : Type 0) : Type 0 where
  pub methods : Table → Methods W
  pub errno : W → ℕ
  pub reader : Reader W
  pub capabilities : ℕ
  pub disallow_ppdev : Bool
  pub name : Text
  pub floats : Floats F
  pub left : Leftover

module _ {W F : Type 0} (around : Surroundings W F) where
  open around use {methods, errno, reader, capabilities, disallow_ppdev, name, floats, left}

  unfoldable pub perform : Call F → Run W (Reply F)
  perform (Call.get_deviceid args) =
      parport_get_deviceid methods errno reader capabilities disallow_ppdev name left args
  perform (Call.open_port args) = parport_open methods errno capabilities disallow_ppdev args
  perform (Call.negotiate args) = parport_negotiate methods errno args
  perform (Call.data_dir args) = parport_data_dir methods errno args
  perform (Call.write_data args) = parport_write_data methods errno args
  perform (Call.write_control args) = parport_write_control methods errno args
  perform Call.close = parport_close methods errno
  perform Call.get_irq_fd = parport_get_irq_fd methods errno
  perform Call.clear_irq = parport_clear_irq methods errno left
  perform Call.claim = parport_claim methods errno
  perform Call.release = parport_release methods errno
  perform Call.read_data = parport_read_data methods errno
  perform Call.read_status = parport_read_status methods errno
  perform Call.read_control = parport_read_control methods errno
  perform Call.terminate = parport_terminate methods errno
  perform Call.ecp_fwd_to_rev = parport_ecp_fwd_to_rev methods errno
  perform Call.ecp_rev_to_fwd = parport_ecp_rev_to_fwd methods errno
  perform (Call.wait_status args) = parport_wait_status methods errno floats args
  perform (Call.frob_control args) = parport_frob_control methods errno args
  perform (Call.set_timeout args) = parport_set_timeout methods errno floats args
  perform (Call.read x args) = parport_read methods errno x left args
  perform (Call.write x args) = parport_write methods errno x args
