-- ===== src/Tests/Sim.antt =====
-- A host whose world is the time in microseconds. Its parallel port has nothing on the data lines
-- and a peripheral that shows Select, with Busy inverted in the register.
use libieee.Common.{[], arith, false, negsuc, none, pos, true, ℕ, ◌%◌, ◌*◌, ◌+◌, ◌/◌, ◌∷◌}
use libieee.Io.{io_access_methods, io_pins}
use libieee.Io.Poll.{timely-QuietPins}
use libieee.Io.Session.{io-QuietData}
use libieee.Port.Clock.{Clock, TimeVal}
use libieee.Port.Delay.{Advances}
use libieee.Port.Host.{Host}
use libieee.Port.Machine.{Machine, Phase, Port, Table}
use libieee.Port.Methods.{Methods, Pins}
use libieee.Port.Quiet.{QuietData, QuietPins}
use libieee.Port.Run.{pure}
use libieee.Port.Time.{Ticks, TimelyInput}

abbrev pub time_at : ℕ → TimeVal
time_at w = record { tv_sec = w / 1000000; tv_usec = w % 1000000 }

abbrev pub sim_clock : Clock ℕ
sim_clock = record {
  gettimeofday = λ w. (time_at w, w + 1);
  select = λ t w. w + t.tv_sec * 1000000 + t.tv_usec;
}

abbrev pub sim_host : Host ℕ
sim_host = record {
  clock = sim_clock;
  inb = λ addr w. (0x90, w);
  outb = λ val addr w. w;
  ioperm = λ from num on w. (pos 0, w);
  open_file = λ name w. (pos 3, w);
  close_file = λ fd w. w;
  lseek = λ fd at w. (pos at, w);
  read = λ fd n w. ((pos 1, 0x90 ∷ []), w);
  write = λ fd bytes w. (pos 1, w);
  ioctl = λ fd request w. ((pos 0, 0), w);
  errno = λ w. 0;
  eagain = 11;
  eio = 5;
  enxio = 6;
  o_nonblock = 0x800;
  getfl = λ fd w. (pos 2, w);
  setfl = λ fd flags w. (pos 0, w);
  select_read = λ fd timeout w. (pos 1, w);
  gettime = λ fd w. (time_at 0, w);
  settime = λ fd t w. w;
}

abbrev pub sample_port : Port
sample_port = record {
  type = 1;
  device = [];
  udevice = none;
  base = 0x378;
  base_hi = 0;
  interrupt = negsuc 0;
  fd = negsuc 0;
  opened = true;
  claimed = true;
  ctr = 0x0c;
  current_mode = 0x100;
  current_channel = 0;
  current_phase = Phase.fwd_data;
  ref = pos 2;
  fn = Table.io_access_methods false;
  access_priv = record { nonblock = 0; current_flags = 0 };
}

abbrev pub sample : Machine ℕ
sample = record { port = sample_port; filename = []; live = true; world = 5000000 }

abbrev pub unclaimed_sample : Machine ℕ
unclaimed_sample = record sample { port = record sample_port { claimed = false } }

pub sim-Ticks : Ticks sim_clock
sim-Ticks = record {
  normal = λ w. omega arith;
  look = λ w. omega arith;
  sleep = λ w t. omega arith;
}

pub sim-TimelyInput : TimelyInput sim_host
sim-TimelyInput = record {
  inb = λ w addr. omega arith;
  lseek = λ w fd at. omega arith;
  read = λ w fd n. omega arith;
}

-- Rounds for the waits of a tenth of a second.
abbrev pub sim_rounds : ℕ
sim_rounds = 100001

abbrev pub sim_pins : Pins ℕ
sim_pins = io_pins sim_host sim_rounds

pub sim-QuietPins : QuietPins sim_pins
sim-QuietPins = timely-QuietPins sim_host sim-Ticks sim-TimelyInput sim_rounds (omega arith)

-- Tables whose init and cleanup do nothing.
abbrev pub sim_methods : Table → Methods ℕ
sim_methods table = record (io_access_methods sim_host sim_rounds) {
  init = λ flags caps. pure (pos 0, caps);
  cleanup = none;
}

pub sim-Advances : Advances sim_clock 1
sim-Advances = record {
  normal = λ w. omega arith;
  look = λ w. omega arith;
  goes_on = λ w. omega arith;
}

pub sim-QuietData : QuietData sim_pins
sim-QuietData = io-QuietData sim_host sim_rounds
