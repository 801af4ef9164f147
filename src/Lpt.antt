-- ===== src/Lpt.antt =====
-- src/access_lpt.c: access through the ParallelVdm device of Windows NT, as it is compiled for
-- Cygwin (HAVE_CYGWIN_NT), with the device's codes from src/par_nt.h; elsewhere its table has
-- nothing but null pointers. The lines that src/debug.c and printf print are left out.
pub mod Lines
pub mod Missing
pub mod Poll
use libieee.Port.Cap
use libieee.Port.Control
use libieee.Port.E1284
use libieee.Port.Status
use libieee.Port.Transfer
use libieee.Common.{
  Bool, List, Option, [], complement, if◌then◌else◌, none, pos, some, suc, to_byte, zero, ℕ, ℤ, ◌%◌,
  ◌*◌, ◌-◌, ◌==◌, ◌^◌, ◌∩◌, ◌∪◌, ◌∷◌, ◌⊖◌,
}
use libieee.Default.Byte.{default_byte_read}
use libieee.Default.Compat.{default_compat_write}
use libieee.Default.EcpRead.{default_ecp_read_addr, default_ecp_read_data}
use libieee.Default.EcpWrite.{default_ecp_write_addr, default_ecp_write_data}
use libieee.Default.Epp.{
  default_epp_read_addr, default_epp_read_data, default_epp_write_addr, default_epp_write_data,
}
use libieee.Default.Link.{
  default_ecp_fwd_to_rev, default_ecp_rev_to_fwd, default_negotiate, default_terminate,
}
use libieee.Default.Nibble.{default_nibble_read}
use libieee.Default.Poll.{default_do_nack_handshake, default_set_timeout, default_wait_data}
use libieee.Io.{data_dir, read_data}
use libieee.Port.Clock.{Clock, TimeVal, before, deadline_after, delay, io_poll_delay}
use libieee.Port.Machine.{Text}
use libieee.Port.Methods.{Methods, Pins}
use libieee.Port.Run.{Run, ask, gets, map_caps, modify, out_of_rounds, pure, put, skip, ◌>>=◌, ◌>>◌}
use libieee.Ppdev.Modes.{has_others, negotiate}
use libieee.Tables.{zeroed_methods}

-- NT_CTL_CODE, and the three codes.
abbrev pub nt_ctl_code : ℕ → ℕ
nt_ctl_code function = (0x2c * 2 ^ 16) ∪ (function * 4)

abbrev nt_ioctl_data : ℕ
nt_ioctl_data = nt_ctl_code 1

abbrev nt_ioctl_control : ℕ
nt_ioctl_control = nt_ctl_code 2

abbrev nt_ioctl_status : ℕ
nt_ioctl_status = nt_ctl_code 3

-- `caps & ~mask`
abbrev pub clear : ℕ → ℕ → ℕ
clear caps mask = caps - (caps ∩ mask)

-- The system that the methods call. `device_io_control` takes the bytes that go in, and gives what
-- the byte that comes out holds after the call, also where the call fails.
pub record NtHost (W : Type 0) : Type 0 where
  pub clock : Clock W
  pub create_file : Text → W → ℤ × W
  pub is_invalid_handle : ℤ → Bool
  pub close_handle : ℤ → W → W
  pub device_io_control : ℤ → ℕ → List ℕ → W → ℕ × W

module _ {W : Type 0} (host : NtHost W) where
  control_device : ℕ → List ℕ → Run W ℕ
  control_device code bytes = do fd ← gets (λ p. p.fd); ask (host.device_io_control fd code bytes)

  unfoldable pub init : ℕ → Option ℕ → Run W (ℤ × Option ℕ)
  init flags capabilities =
      if has_others flags Transfer.excl then pure (E1284.notavail, capabilities) else do
        device ← gets (λ p. p.device)
        fd ← ask (host.create_file device)
        modify (λ p. record p { fd = fd })
        if host.is_invalid_handle fd
            then pure (E1284.sys, capabilities)
            else pure
                (E1284.ok, map_caps (λ c. clear (c ∪ Cap.raw) (Cap.ecpswe ∪ Cap.byte)) capabilities)

  unfoldable pub cleanup : Run W (Unit {0})
  cleanup = do fd ← gets (λ p. p.fd); put (host.close_handle fd)

  unfoldable pub write_data : ℕ → Run W (Unit {0})
  unfolding control_device
  write_data reg = do control_device nt_ioctl_data (reg ∷ []); skip

  unfoldable pub read_status : Run W ℤ
  unfolding control_device
  read_status = do
    ret ← control_device nt_ioctl_status []
    pure (pos ((ret ⊖ Status.inverted) % 256))

  unfoldable pub raw_frob_control : ℕ → ℕ → Run W (Unit {0})
  unfolding control_device
  raw_frob_control mask val = do
    ctr ← gets (λ p. p.ctr)
    let ctr = (ctr ∩ complement mask) ⊖ (val ⊖ (mask ∩ Control.inverted))
    control_device nt_ioctl_control (ctr ∷ [])
    modify (λ p. record p { ctr = ctr })

  unfoldable pub read_control : Run W ℤ
  read_control = do ctr ← gets (λ p. p.ctr); pure (pos ((ctr ⊖ Control.inverted) ∩ Control.pins))

  -- The bit for the direction of the data lines is reported as an error, and not written.
  unfoldable pub write_control : ℕ → Run W (Unit {0})
  unfolding raw_frob_control
  write_control reg = raw_frob_control Control.pins (reg ∩ Control.pins)

  unfoldable pub frob_control : ℕ → ℕ → Run W (Unit {0})
  unfolding raw_frob_control
  frob_control mask val = raw_frob_control (mask ∩ Control.pins) (val ∩ Control.pins)

  -- The do-while loop of wait_status, for at most so many rounds.
  unfoldable pub wait_status_loop : ℕ → TimeVal → ℕ → ℕ → Run W ℤ
  unfolding read_status delay
  wait_status_loop zero deadline mask val = λ _. out_of_rounds
  wait_status_loop (suc k) deadline mask val = do
    status ← read_status
    if to_byte status ∩ mask == val then pure E1284.ok else do
      delay host.clock io_poll_delay
      now ← ask host.clock.gettimeofday
      if before now deadline then wait_status_loop k deadline mask val else pure E1284.timedout

  unfoldable pub wait_status : ℕ → ℕ → ℕ → TimeVal → Run W ℤ
  unfolding wait_status_loop
  wait_status rounds mask val timeout = do
    now ← ask host.clock.gettimeofday
    wait_status_loop rounds (deadline_after now timeout) mask val

  abbrev pub lpt_pins : ℕ → Pins W
  lpt_pins rounds = record {
    read_data = none;
    write_data = write_data;
    data_dir = none;
    read_status = read_status;
    wait_status = wait_status rounds;
    read_control = read_control;
    write_control = write_control;
    frob_control = frob_control;
  }

-- lpt_access_methods: the pin-level methods above, and the operations of src/default.c over them.
module _ {W : Type 0} (host : NtHost W) (rounds : ℕ) where
  abbrev pub lpt_terminate : Run W (Unit {0})
  lpt_terminate =
      default_terminate (lpt_pins host rounds) (default_ecp_rev_to_fwd (lpt_pins host rounds))

  abbrev pub lpt_access_methods : Methods W
  lpt_access_methods =
      let pin = lpt_pins host rounds in
      let fwd_to_rev = default_ecp_fwd_to_rev pin host.clock rounds in
      let rev_to_fwd = default_ecp_rev_to_fwd pin in
      record {
        init = init host;
        cleanup = some (cleanup host);
        claim = none;
        release = none;
        get_irq_fd = none;
        clear_irq = none;
        pins = pin;
        wait_data = default_wait_data host.clock pin rounds;
        do_nack_handshake = default_do_nack_handshake;
        negotiate = default_negotiate pin host.clock lpt_terminate;
        terminate = lpt_terminate;
        ecp_fwd_to_rev = fwd_to_rev;
        ecp_rev_to_fwd = rev_to_fwd;
        nibble_read = default_nibble_read pin lpt_terminate;
        compat_write = default_compat_write host.clock pin lpt_terminate;
        byte_read = default_byte_read host.clock rounds pin;
        epp_read_data = default_epp_read_data host.clock rounds pin;
        epp_write_data = default_epp_write_data host.clock rounds pin;
        epp_read_addr = default_epp_read_addr;
        epp_write_addr = default_epp_write_addr;
        ecp_read_data = default_ecp_read_data pin rounds fwd_to_rev;
        ecp_write_data = default_ecp_write_data host.clock rounds pin rev_to_fwd;
        ecp_read_addr = default_ecp_read_addr;
        ecp_write_addr = default_ecp_write_addr host.clock rounds pin rev_to_fwd;
        set_timeout = default_set_timeout;
      }

-- The table of a system that is not Windows NT.
abbrev pub null_lpt_access_methods : {W : Type 0} → Methods W
null_lpt_access_methods = zeroed_methods
