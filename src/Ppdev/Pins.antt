-- ===== src/Ppdev/Pins.antt =====
-- The pin-level methods of src/access_ppdev.c, and the handshake that an interrupt ends.
use libieee.Port.Control
use libieee.Port.E1284
use libieee.Port.Status
use libieee.Common.{
  Option, if◌then◌else◌, meets, negsuc, none, pos, some, suc, to_byte, truthy, zero, ℕ, ℤ, ◌%◌,
  ◌==◌, ◌∩◌, ◌⊖◌,
}
use libieee.Port.Clock.{TimeVal, before, deadline_after, delay, io_poll_delay}
use libieee.Port.Host.{Host, Request}
use libieee.Port.Methods.{Pins}
use libieee.Port.Run.{Run, ask, gets, out_of_rounds, pure, skip, ◌>>=◌, ◌>>◌}

module _ {W : Type 0} (host : Host W) where
  -- `ioctl (port->fd, request, ...)`, and what it stores.
  unfoldable pub ask_device : Request → Run W (ℤ × ℕ)
  ask_device r = do fd ← gets (λ p. p.fd); ask (host.ioctl fd r)

  unfoldable pub get_irq_fd : Run W ℤ
  get_irq_fd = gets (λ p. p.fd)

  -- The result, and the count stored through the pointer that may be NULL.
  unfoldable pub clear_irq : Run W (ℤ × Option ℕ)
  unfolding ask_device
  clear_irq = do
    (r, c) ← ask_device Request.ppclrirq
    if truthy r then pure (E1284.sys, none) else pure (E1284.ok, some c)

  unfoldable pub read_data : Run W ℤ
  unfolding ask_device
  read_data = do
    (r, reg) ← ask_device Request.pprdata
    if truthy r then pure E1284.notavail else pure (pos (reg % 256))

  unfoldable pub write_data : ℕ → Run W (Unit {0})
  unfolding ask_device
  write_data reg = do ask_device (Request.ppwdata reg); skip

  unfoldable pub read_status : Run W ℤ
  unfolding ask_device
  read_status = do
    (r, reg) ← ask_device Request.pprstatus
    if truthy r then pure E1284.notavail else pure (pos ((reg % 256) ⊖ Status.inverted))

  unfoldable pub read_control : Run W ℤ
  unfolding ask_device
  read_control = do
    (r, reg) ← ask_device Request.pprcontrol
    if truthy r
        then pure E1284.notavail
        else pure (pos (((reg % 256) ⊖ Control.inverted) ∩ Control.pins))

  unfoldable pub data_dir : ℕ → Run W ℤ
  unfolding ask_device
  data_dir reverse = do
    (r, _) ← ask_device (Request.ppdatadir reverse)
    pure (if truthy r then E1284.sys else E1284.ok)

  unfoldable pub write_control : ℕ → Run W (Unit {0})
  unfolding ask_device data_dir
  write_control reg = do
    if meets reg Control.reverse then data_dir 1 >>= (λ _. skip) else skip
    ask_device (Request.ppwcontrol ((reg ∩ Control.pins) ⊖ Control.inverted))
    skip

  unfoldable pub frob_control : ℕ → ℕ → Run W (Unit {0})
  unfolding ask_device data_dir
  frob_control mask val = do
    if meets mask Control.reverse then data_dir (val ∩ Control.reverse) >>= (λ _. skip) else skip
    ask_device (Request.ppfcontrol mask (val ⊖ (mask ∩ Control.inverted)))
    skip

  -- The do-while loop of wait_status, for at most so many rounds.
  unfoldable pub wait_status_loop : ℕ → TimeVal → ℕ → ℕ → Run W ℤ
  unfolding read_status delay
  wait_status_loop zero deadline mask val = λ _. out_of_rounds
  wait_status_loop (suc k) deadline mask val = do
    status ← read_status
    if to_byte status ∩ mask == val then pure E1284.ok else do
      delay host.clock io_poll_delay
      now ← ask host.clock.gettimeofday
      if before now deadline then wait_status_loop k deadline mask val else pure E1284.timedout

  unfoldable pub wait_status : ℕ → ℕ → ℕ → TimeVal → Run W ℤ
  unfolding wait_status_loop
  wait_status rounds mask val timeout = do
    now ← ask host.clock.gettimeofday
    wait_status_loop rounds (deadline_after now timeout) mask val

  -- The end of do_nack_handshake, by the result of its select.
  unfoldable pub after_select : ℤ → Run W ℤ
  unfolding ask_device
  after_select (pos zero) = pure E1284.timedout
  after_select (negsuc zero) = pure E1284.notavail
  after_select _ = do ask_device Request.ppclrirq; pure E1284.ok

  unfoldable pub do_nack_handshake : ℕ → ℕ → TimeVal → Run W ℤ
  unfolding ask_device write_control after_select
  do_nack_handshake ct_before ct_after timeout = do
    (r, _) ← ask_device Request.ppclrirq
    if truthy r then pure E1284.notavail else do
      (r, _) ← ask_device (Request.ppwctlonirq ct_after)
      if truthy r then pure E1284.notavail else do
        write_control ct_before
        fd ← gets (λ p. p.fd)
        ready ← ask (host.select_read fd timeout)
        after_select ready

  abbrev pub ppdev_pins : ℕ → Pins W
  ppdev_pins rounds = record {
    read_data = some read_data;
    write_data = write_data;
    data_dir = some data_dir;
    read_status = read_status;
    wait_status = wait_status rounds;
    read_control = read_control;
    write_control = write_control;
    frob_control = frob_control;
  }
