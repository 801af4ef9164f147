-- ===== src/Tests/Access.antt =====
-- Witnesses for the clock and the registers of src/access_io.c.
use libieee.Port.Control
use libieee.Port.Status
use libieee.Common.{arith, pos, refl, ℕ, ◌+◌, ◌/◌, ◌≡◌}
use libieee.Io.{frob_control, read_control, wait_status}
use libieee.Io.Poll.{Waited, wait_status-Waited}
use libieee.Io.Registers.{frob_doc, read-frob_control}
use libieee.Port.Clock.{Clock, lookup_delay, timeval_signal_timeout, udelay}
use libieee.Port.Delay.{Advances, Delayed, udelay-Delayed}
use libieee.Port.Returns.{Returns}
use libieee.Port.Run.{done, ◌>>◌}
use libieee.Port.Time.{reading}
use libieee.Tests.Sim.{sample, sim-Ticks, sim-TimelyInput, sim_clock, sim_host, sim_rounds, time_at}

-- A wait of a tenth of a second for nAck.
wait_status-Waited_example :
    Returns
      (Waited sim_host sim-Ticks sim-TimelyInput sample (reading sim_clock sample.world + 100000))
      (wait_status sim_host sim_rounds Status.nack 0 (lookup_delay timeval_signal_timeout) sample)
wait_status-Waited_example =
    wait_status-Waited sim_host sim-Ticks sim-TimelyInput sim_rounds Status.nack 0
      (lookup_delay timeval_signal_timeout) sample (omega arith)

-- A clock that two looks in a row show the same time of.
abbrev slow_clock : Clock ℕ
slow_clock = record sim_clock { gettimeofday = λ w. (time_at (w / 2), w + 1) }

slow-Advances : Advances slow_clock 2
slow-Advances = record {
  normal = λ w. omega arith;
  look = λ w. omega arith;
  goes_on = λ w. omega arith;
}

udelay-Delayed_example :
    Returns
      (λ _ t. Delayed slow_clock 2 slow-Advances sample (reading slow_clock sample.world + 50) t)
      (udelay slow_clock 101 50 sample)
udelay-Delayed_example = udelay-Delayed slow_clock 2 slow-Advances 101 50 sample (omega arith)

read_control_sample : read_control sim_host sample ≡ done (pos 0x07) sample
unfolding read_control
read_control_sample = refl

-- nStrobe set, from a register that shows three pins high.
read-frob_control_example :
    Returns
      (λ r _. r ≡ pos (frob_doc 0x07 Control.nstrobe Control.nstrobe))
      ((do frob_control sim_host Control.nstrobe Control.nstrobe; read_control sim_host) sample)
read-frob_control_example =
    read-frob_control sim_host Control.nstrobe Control.nstrobe 0x07 sample read_control_sample
