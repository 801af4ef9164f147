-- ===== src/Default/Poll/Timeouts.antt =====
-- The wait for data lines of src/default.c, against the clock.
use libieee.Common.{ap, refl, suc, to_byte, zero, ℕ, ◌+◌, ◌<◌, ◌==◌, ◌∩◌, ◌≡◌}
use libieee.Default.Poll.{default_wait_data, wait_data_loop}
use libieee.Port.Clock.{Clock, TimeVal}
use libieee.Port.Machine.{Machine}
use libieee.Port.Methods.{Pins}
use libieee.Port.Polling.{Looked, Polled, poll_from_now-Polled, poll_loop, poll_round}
use libieee.Port.Returns.{Returns}
use libieee.Port.Run.{call}
use libieee.Port.Time.{Ticks, reading, us}

module _ {W : Type 0} (clock : Clock W) (pin : Pins W) (ticks : Ticks clock)
    (looks : (s : Machine W) → Returns (λ _ t. Looked clock s t) (call pin.read_data s)) where
  wait_data_loop-same :
      (mask val k : ℕ) (deadline : TimeVal)
      → wait_data_loop clock pin k deadline mask val
        ≡ poll_loop clock (call pin.read_data) (λ r. to_byte r ∩ mask == val) deadline k
  unfolding wait_data_loop poll_loop
  wait_data_loop-same mask val zero deadline = refl
  wait_data_loop-same mask val (suc k) deadline =
      ap (poll_round clock (call pin.read_data) (λ r. to_byte r ∩ mask == val) deadline)
        (wait_data_loop-same mask val k deadline)

  -- A wait for data lines returns, with as many rounds as its timeout has microseconds and one
  -- more: it reports success or a timeout, a timeout only once the clock shows the timeout past,
  -- and nothing of the port is changed. The data lines can be read, reading them and looking at the
  -- clock do not turn it back, and it ticks while select sleeps.
  pub wait_data-Polled :
      (rounds mask val : ℕ) (timeout : TimeVal) (s : Machine W)
      → us timeout < rounds
      → Returns
          (Polled clock s (reading clock s.world + us timeout))
          (default_wait_data clock pin rounds mask val timeout s)
  unfolding default_wait_data
  wait_data-Polled rounds mask val timeout s h =
      poll_from_now-Polled clock (call pin.read_data) (λ r. to_byte r ∩ mask == val) ticks looks
        (λ k deadline. wait_data_loop clock pin k deadline mask val) (wait_data_loop-same mask val)
        rounds timeout s h
