-- ===== src/Lpt/Poll.antt =====
-- The polling loop of wait_status in src/access_lpt.c, against the clock.
use libieee.Common.{List, [], ap, refl, suc, to_byte, zero, ℕ, ℤ, ◌+◌, ◌<◌, ◌==◌, ◌∩◌, ◌≡◌, ◌≤◌}
use libieee.Lpt.{NtHost, nt_ioctl_status, read_status, wait_status, wait_status_loop}
use libieee.Port.Clock.{TimeVal}
use libieee.Port.Machine.{Machine}
use libieee.Port.Polling.{Looked, Polled, poll_from_now-Polled, poll_loop, poll_round}
use libieee.Port.Returns.{Returns, returns}
use libieee.Port.Time.{Ticks, reading, us}

module _ {W : Type 0} (nt : NtHost W) (ticks : Ticks nt.clock)
    (timely : (handle : ℤ) (code : ℕ) (bytes : List ℕ) (w : W)
      → reading nt.clock w ≤ reading nt.clock (nt.device_io_control handle code bytes w).1) where
  wait_status_loop-same :
      (mask val k : ℕ) (deadline : TimeVal)
      → wait_status_loop nt k deadline mask val
        ≡ poll_loop nt.clock (read_status nt) (λ r. to_byte r ∩ mask == val) deadline k
  unfolding wait_status_loop poll_loop
  wait_status_loop-same mask val zero deadline = refl
  wait_status_loop-same mask val (suc k) deadline =
      ap (poll_round nt.clock (read_status nt) (λ r. to_byte r ∩ mask == val) deadline)
        (wait_status_loop-same mask val k deadline)

  read_status-Looked : (s : Machine W) → Returns (λ _ t. Looked nt.clock s t) (read_status nt s)
  unfolding read_status
  read_status-Looked s =
      returns
        (record { port = refl; live = refl; later = timely s.port.fd nt_ioctl_status [] s.world })

  -- A wait for status lines through the device of Windows NT returns, with as many rounds as its
  -- timeout has microseconds and one more: it reports success or a timeout, a timeout only once the
  -- clock shows the timeout past, and nothing of the port is changed. The clock ticks while select
  -- sleeps, and neither looking at it nor asking the device turns it back.
  pub lpt_wait_status-Polled :
      (rounds mask val : ℕ) (timeout : TimeVal) (s : Machine W)
      → us timeout < rounds
      → Returns
          (Polled nt.clock s (reading nt.clock s.world + us timeout))
          (wait_status nt rounds mask val timeout s)
  unfolding wait_status
  lpt_wait_status-Polled rounds mask val timeout s h =
      poll_from_now-Polled nt.clock (read_status nt) (λ r. to_byte r ∩ mask == val) ticks
        read_status-Looked (λ k deadline. wait_status_loop nt k deadline mask val)
        (wait_status_loop-same mask val) rounds timeout s h
