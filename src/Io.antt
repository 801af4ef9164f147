-- ===== src/Io.antt =====
-- src/access_io.c, as it is compiled for Linux with sys/io.h: access by input and output
-- instructions, or through /dev/port. The lines that src/debug.c prints are left out:
-- debug_display_status returns its argument.
pub mod Registers
pub mod Session
pub mod Poll
pub mod Opened
pub mod Files
use libieee.Port.Cap
use libieee.Port.Capable
use libieee.Port.Control
use libieee.Port.E1284
use libieee.Port.Status
use libieee.Common.{
  Bool, Option, [], complement, false, first_or, if◌then◌else◌, is_minus_one, is_neg, meets, none,
  not, pos, some, suc, to_byte, true, truthy, zero, ℕ, ℤ, ◌%◌, ◌&&◌, ◌+◌, ◌==◌, ◌∩◌, ◌∪◌, ◌∷◌, ◌⊖◌,
}
use libieee.Default.Byte.{default_byte_read}
use libieee.Default.Compat.{default_compat_write}
use libieee.Default.EcpRead.{default_ecp_read_addr, default_ecp_read_data}
use libieee.Default.EcpWrite.{default_ecp_write_addr, default_ecp_write_data}
use libieee.Default.Epp.{
  default_epp_read_addr, default_epp_read_data, default_epp_write_addr, default_epp_write_data,
}
use libieee.Default.Link.{
  default_ecp_fwd_to_rev, default_ecp_rev_to_fwd, default_negotiate, default_terminate,
}
use libieee.Default.Nibble.{default_nibble_read}
use libieee.Default.Poll.{default_do_nack_handshake, default_set_timeout, default_wait_data}
use libieee.Port.Clock.{TimeVal, before, deadline_after, delay, io_poll_delay}
use libieee.Port.Host.{Host}
use libieee.Port.Machine.{Table, Text}
use libieee.Port.Methods.{Methods, Pins}
use libieee.Port.Run.{Run, ask, gets, map_caps, modify, out_of_rounds, pure, put, skip, ◌>>=◌, ◌>>◌}
use libieee.Ppdev.Blocks.{
  byte_read, compat_write, ecp_read_data, ecp_write_addr, ecp_write_data, epp_read_addr,
  epp_read_data, epp_write_addr, epp_write_data, nibble_read, set_timeout,
}
use libieee.Ppdev.Modes.{negotiate}
use libieee.Ppdev.Opening.{claim, release}
use libieee.Ppdev.Pins.{clear_irq, do_nack_handshake, get_irq_fd}

-- "/dev/port"
abbrev pub dev_port_name : Text
dev_port_name = b'/' ∷ b'd' ∷ b'e' ∷ b'v' ∷ b'/' ∷ b'p' ∷ b'o' ∷ b'r' ∷ b't' ∷ []

abbrev file_io_of : Table → Bool
file_io_of (Table.io_access_methods file_io) = file_io
file_io_of _ = false

abbrev fd_open : ℤ → Bool
fd_open fd = not (is_neg fd)

-- The value of the control register after raw_frob_control.
unfoldable pub frobbed : ℕ → ℕ → ℕ → ℕ
frobbed ctr mask val = (ctr ∩ complement mask) ⊖ (val ⊖ (mask ∩ Control.inverted))

module _ {W : Type 0} (host : Host W) where
  raw_inb : ℕ → Run W ℕ
  raw_inb addr = do byte ← ask (host.inb (addr % 65536)); pure (byte % 256)

  raw_outb : ℕ → ℕ → Run W (Unit {0})
  raw_outb val addr = put (host.outb val (addr % 65536))

  port_inb : ℕ → Run W ℕ
  port_inb addr = do
    fd ← gets (λ p. p.fd)
    at ← ask (host.lseek fd addr)
    if is_minus_one at
        then pure 0xff
        else do (_, got) ← ask (host.read fd 1); pure (first_or 0xff got)

  port_outb : ℕ → ℕ → Run W (Unit {0})
  port_outb val addr = do
    fd ← gets (λ p. p.fd)
    at ← ask (host.lseek fd addr)
    if is_minus_one at then skip else do ask (host.write fd (val ∷ [])); skip

  unfoldable pub do_inb : ℕ → Run W ℕ
  unfolding raw_inb port_inb
  do_inb addr = do fn ← gets (λ p. p.fn); if file_io_of fn then port_inb addr else raw_inb addr

  unfoldable pub do_outb : ℕ → ℕ → Run W (Unit {0})
  unfolding raw_outb port_outb
  do_outb val addr = do
    fn ← gets (λ p. p.fn)
    if file_io_of fn then port_outb val addr else raw_outb val addr

  -- `ioperm (port->base, 3, 1) || ioperm (0x80, 1, 1)`
  get_permission : Run W Bool
  get_permission = do
    base ← gets (λ p. p.base)
    r ← ask (host.ioperm base 3 1)
    if truthy r then pure false else do r ← ask (host.ioperm 0x80 1 1); pure (not (truthy r))

  -- `port->fd = open ("/dev/port", O_RDWR | O_NOCTTY)`, and the methods that go through it.
  open_dev_port : Run W Bool
  open_dev_port = do
    fd ← ask (host.open_file dev_port_name)
    modify (λ p. record p { fd = fd })
    if is_neg fd
        then pure false
        else do modify (λ p. record p { fn = Table.io_access_methods true }); pure true

  unfoldable pub init : ℕ → Option ℕ → Run W (ℤ × Option ℕ)
  unfolding get_permission open_dev_port
  init flags capabilities = do
    type ← gets (λ p. p.type)
    if not (flags == 0) then pure (E1284.notavail, capabilities) else do
      ready ←
          if type == Capable.io
          then get_permission
          else if type == Capable.dev_port
          then open_dev_port
          else pure true
      if ready
          then pure (E1284.ok, map_caps (λ c. c ∪ Cap.raw) capabilities)
          else pure (E1284.init, capabilities)

  unfoldable pub cleanup : Run W (Unit {0})
  cleanup = do
    type ← gets (λ p. p.type)
    fd ← gets (λ p. p.fd)
    if not (type == Capable.io) && fd_open fd then put (host.close_file fd) else skip

  unfoldable pub read_data : Run W ℤ
  unfolding do_inb
  read_data = do base ← gets (λ p. p.base); byte ← do_inb base; pure (pos byte)

  unfoldable pub write_data : ℕ → Run W (Unit {0})
  unfolding do_outb
  write_data reg = do base ← gets (λ p. p.base); do_outb reg base

  unfoldable pub read_status : Run W ℤ
  unfolding do_inb
  read_status = do
    base ← gets (λ p. p.base)
    byte ← do_inb (base + 1)
    pure (pos (byte ⊖ Status.inverted))

  unfoldable pub raw_frob_control : ℕ → ℕ → Run W (Unit {0})
  unfolding do_outb frobbed
  raw_frob_control mask val = do
    ctr ← gets (λ p. p.ctr)
    base ← gets (λ p. p.base)
    do_outb (frobbed ctr mask val) (base + 2)
    modify (λ p. record p { ctr = frobbed ctr mask val })

  unfoldable pub read_control : Run W ℤ
  read_control = do ctr ← gets (λ p. p.ctr); pure (pos ((ctr ⊖ Control.inverted) ∩ Control.pins))

  unfoldable pub data_dir : ℕ → Run W ℤ
  unfolding raw_frob_control
  data_dir reverse = do
    raw_frob_control Control.reverse (if reverse == 0 then 0 else Control.reverse)
    pure E1284.ok

  unfoldable pub write_control : ℕ → Run W (Unit {0})
  unfolding raw_frob_control data_dir
  write_control reg = do
    if meets reg Control.reverse then data_dir 1 >>= (λ _. skip) else skip
    raw_frob_control Control.pins (reg ∩ Control.pins)

  unfoldable pub frob_control : ℕ → ℕ → Run W (Unit {0})
  unfolding raw_frob_control data_dir
  frob_control mask val = do
    if meets mask Control.reverse then data_dir (val ∩ Control.reverse) >>= (λ _. skip) else skip
    raw_frob_control (mask ∩ Control.pins) (val ∩ Control.pins)

  -- The do-while loop of wait_status, for at most so many rounds.
  unfoldable pub wait_status_loop : ℕ → TimeVal → ℕ → ℕ → Run W ℤ
  unfolding read_status delay
  wait_status_loop zero deadline mask val = λ _. out_of_rounds
  wait_status_loop (suc k) deadline mask val = do
    status ← read_status
    if to_byte status ∩ mask == val then pure E1284.ok else do
      delay host.clock io_poll_delay
      now ← ask host.clock.gettimeofday
      if before now deadline then wait_status_loop k deadline mask val else pure E1284.timedout

  unfoldable pub wait_status : ℕ → ℕ → ℕ → TimeVal → Run W ℤ
  unfolding wait_status_loop
  wait_status rounds mask val timeout = do
    now ← ask host.clock.gettimeofday
    wait_status_loop rounds (deadline_after now timeout) mask val

  abbrev pub io_pins : ℕ → Pins W
  io_pins rounds = record {
    read_data = some read_data;
    write_data = write_data;
    data_dir = some data_dir;
    read_status = read_status;
    wait_status = wait_status rounds;
    read_control = read_control;
    write_control = write_control;
    frob_control = frob_control;
  }

-- io_access_methods: the pin-level methods above, and the operations of src/default.c over them.
module _ {W : Type 0} (host : Host W) (rounds : ℕ) where
  abbrev pub io_terminate : Run W (Unit {0})
  io_terminate =
      default_terminate (io_pins host rounds) (default_ecp_rev_to_fwd (io_pins host rounds))

  abbrev pub io_access_methods : Methods W
  io_access_methods =
      let pin = io_pins host rounds in
      let fwd_to_rev = default_ecp_fwd_to_rev pin host.clock rounds in
      let rev_to_fwd = default_ecp_rev_to_fwd pin in
      record {
        init = init host;
        cleanup = some (cleanup host);
        claim = none;
        release = none;
        get_irq_fd = none;
        clear_irq = none;
        pins = pin;
        wait_data = default_wait_data host.clock pin rounds;
        do_nack_handshake = default_do_nack_handshake;
        negotiate = default_negotiate pin host.clock io_terminate;
        terminate = io_terminate;
        ecp_fwd_to_rev = fwd_to_rev;
        ecp_rev_to_fwd = rev_to_fwd;
        nibble_read = default_nibble_read pin io_terminate;
        compat_write = default_compat_write host.clock pin io_terminate;
        byte_read = default_byte_read host.clock rounds pin;
        epp_read_data = default_epp_read_data host.clock rounds pin;
        epp_write_data = default_epp_write_data host.clock rounds pin;
        epp_read_addr = default_epp_read_addr;
        epp_write_addr = default_epp_write_addr;
        ecp_read_data = default_ecp_read_data pin rounds fwd_to_rev;
        ecp_write_data = default_ecp_write_data host.clock rounds pin rev_to_fwd;
        ecp_read_addr = default_ecp_read_addr;
        ecp_write_addr = default_ecp_write_addr host.clock rounds pin rev_to_fwd;
        set_timeout = default_set_timeout;
      }
