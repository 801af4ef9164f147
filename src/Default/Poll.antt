-- ===== src/Default/Poll.antt =====
-- The polling loops of src/default.c: default_wait_data and poll_port.
pub mod Timeouts
use libieee.Port.E1284
use libieee.Common.{if◌then◌else◌, leb, suc, to_byte, zero, ℕ, ℤ, ◌+◌, ◌/◌, ◌==◌, ◌∩◌}
use libieee.Port.Clock.{Clock, TimeVal, before, deadline_after, delay, io_poll_delay, udelay}
use libieee.Port.Methods.{Pins}
use libieee.Port.Run.{Run, ask, call, out_of_rounds, pure, skip, ◌>>=◌, ◌>>◌}

module _ {W : Type 0} (clock : Clock W) (pin : Pins W) where
  -- The do-while loop of default_wait_data, for at most so many rounds.
  unfoldable pub wait_data_loop : ℕ → TimeVal → ℕ → ℕ → Run W ℤ
  wait_data_loop zero deadline mask val = λ _. out_of_rounds
  wait_data_loop (suc k) deadline mask val = do
    reg ← call pin.read_data
    if to_byte reg ∩ mask == val then pure E1284.ok else do
      delay clock io_poll_delay
      now ← ask clock.gettimeofday
      if before now deadline then wait_data_loop k deadline mask val else pure E1284.timedout

  unfoldable pub default_wait_data : ℕ → ℕ → ℕ → TimeVal → Run W ℤ
  unfolding wait_data_loop
  default_wait_data rounds mask val timeout = do
    now ← ask clock.gettimeofday
    wait_data_loop rounds (deadline_after now timeout) mask val

  -- The for loop of poll_port, with `n` rounds left from round `i` on.
  unfoldable pub poll_port_loop : ℕ → ℕ → ℕ → ℕ → ℕ → Run W ℤ
  poll_port_loop rounds zero i mask result = pure E1284.timedout
  poll_port_loop rounds (suc n) i mask result = do
    status ← pin.read_status
    if to_byte status ∩ mask == result then pure E1284.ok else do
      if leb 2 i then udelay clock rounds 5 else skip
      poll_port_loop rounds n (i + 1) mask result

  unfoldable pub poll_port : ℕ → ℕ → ℕ → ℕ → Run W ℤ
  unfolding poll_port_loop
  poll_port rounds mask result usec = poll_port_loop rounds (usec / 5 + 2) 0 mask result

abbrev pub default_do_nack_handshake : {W : Type 0} → ℕ → ℕ → TimeVal → Run W ℤ
default_do_nack_handshake ct_before ct_after timeout = pure E1284.notimpl

abbrev pub default_set_timeout : {W : Type 0} → TimeVal → Run W TimeVal
default_set_timeout timeout = pure (record { tv_sec = 9999; tv_usec = 0 })
