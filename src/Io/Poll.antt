-- ===== src/Io/Poll.antt =====
-- The polling loop of wait_status in src/access_io.c, against the clock.
use libieee.Port.E1284
use libieee.Port.Returns
use libieee.Common.{
  ap, arith, is_minus_one, refl, suc, to_byte, zero, ℕ, ℤ, ◌%◌, ◌+◌, ◌<◌, ◌==◌, ◌∩◌, ◌≡◌, ◌≤◌, ◌⊎◌,
}
use libieee.Io.{do_inb, file_io_of, io_pins, read_data, read_status, wait_status, wait_status_loop}
use libieee.Io.Session.{OnlyWorld, OnlyWorld-Same, io-QuietPins}
use libieee.Port.Clock.{TimeVal, lookup_delay, timeval_signal_timeout}
use libieee.Port.Host.{Host}
use libieee.Port.Machine.{Machine}
use libieee.Port.Polling.{Looked, poll_from_now-Polled, poll_loop, poll_round}
use libieee.Port.Quiet.{QuietPins}
use libieee.Port.Returns.{Returns, returns}
use libieee.Port.Time.{Ticks, TimelyInput, reading, us}

module _ {W : Type 0} (host : Host W) (ticks : Ticks host.clock) (input : TimelyInput host) where
  abbrev now_of : Machine W → ℕ
  now_of s = reading host.clock s.world

  do_inb-timely :
      (addr : ℕ) (s : Machine W)
      → Returns (λ _ t. OnlyWorld s t × (now_of s ≤ now_of t)) (do_inb host addr s)
  unfolding do_inb
  do_inb-timely addr s =
      let at = host.lseek s.port.fd addr s.world in
      let sought = input.lseek s.world s.port.fd addr in
      Returns.branch (file_io_of s.port.fn) _ _ s
        (λ _.
          Returns.branch (is_minus_one at.0) _ _ _
            (λ _. returns (record { port = refl; live = refl }, sought))
            λ _. returns (
              record { port = refl; live = refl },
              omega (arith, sought, input.read at.1 s.port.fd 1),
            ))
        λ _. returns (record { port = refl; live = refl }, input.inb s.world (addr % 65536))

  -- What a wait from machine `s` returns and leaves: success, or a timeout with the clock at the
  -- deadline or past it. Of the port nothing changes.
  pub record Waited (s : Machine W) (deadline : ℕ) (r : ℤ) (t : Machine W) : Type 0 where
    pub only : OnlyWorld s t
    pub verdict : (r ≡ E1284.ok) ⊎ ((r ≡ E1284.timedout) × (deadline ≤ now_of t))

  read_status-timely :
      (s : Machine W) → Returns (λ _ t. OnlyWorld s t × (now_of s ≤ now_of t)) (read_status host s)
  unfolding read_status
  read_status-timely s = Returns.bind (do_inb-timely (s.port.base + 1) s) λ _ t e. returns e

  pub read_data-Looked : (s : Machine W) → Returns (λ _ t. Looked host.clock s t) (read_data host s)
  unfolding read_data
  read_data-Looked s =
      Returns.bind (do_inb-timely s.port.base s)
        λ _ t e. returns (record { port = e.0.port; live = e.0.live; later = e.1 })

  -- The loop is the one that all waits have.
  wait_status_loop-same :
      (mask val k : ℕ) (deadline : TimeVal)
      → wait_status_loop host k deadline mask val
        ≡ poll_loop host.clock (read_status host) (λ r. to_byte r ∩ mask == val) deadline k
  unfolding wait_status_loop poll_loop
  wait_status_loop-same mask val zero deadline = refl
  wait_status_loop-same mask val (suc k) deadline =
      ap (poll_round host.clock (read_status host) (λ r. to_byte r ∩ mask == val) deadline)
        (wait_status_loop-same mask val k deadline)

  -- A wait for status lines returns, with as many rounds as its timeout has microseconds and one
  -- more: it reports success or a timeout, a timeout only once the clock shows the timeout past,
  -- and nothing of the port is changed. The clock ticks while select sleeps, and neither looking at
  -- it nor reading the lines turns it back.
  pub wait_status-Waited :
      (rounds mask val : ℕ) (timeout : TimeVal) (s : Machine W)
      → us timeout < rounds
      → Returns
          (Waited s (reading host.clock s.world + us timeout))
          (wait_status host rounds mask val timeout s)
  unfolding wait_status
  wait_status-Waited rounds mask val timeout s h =
      Returns.mono
        (poll_from_now-Polled host.clock (read_status host) (λ r. to_byte r ∩ mask == val) ticks
          (λ t.
            Returns.mono (read_status-timely t)
              λ _ u e. record { port = e.0.port; live = e.0.live; later = e.1 })
          (λ k deadline. wait_status_loop host k deadline mask val) (wait_status_loop-same mask val)
          rounds timeout s h)
        λ r t w. record { only = record { port = w.port; live = w.live }; verdict = w.verdict }

  -- The pin-level methods of the table, with rounds for the signal timeout of a tenth of a second.
  pub timely-QuietPins :
      (rounds : ℕ)
      → us (lookup_delay timeval_signal_timeout) < rounds
      → QuietPins (io_pins host rounds)
  timely-QuietPins rounds h = io-QuietPins host rounds λ s mask val.
      Returns.mono (wait_status-Waited rounds mask val (lookup_delay timeval_signal_timeout) s h)
        λ r t w. OnlyWorld-Same w.only
