-- ===== src/Tests/Bench.antt =====
-- A peripheral that is always ready: every wait succeeds, the byte on the lines is 'A', and a
-- printer latches what is strobed.
use libieee.Port.Control
use libieee.Port.Status
use libieee.Common.{
  Bool, Bool-cases, List, [], arith, false, if◌then◌else◌, inl, inr, meets, negsuc, none, pos, refl,
  some, to_byte, true, ℕ, ℤ, ◌*◌, ◌++◌, ◌+◌, ◌-◌, ◌<◌, ◌==◌, ◌||◌, ◌∷◌, ◌≡◌,
}
use libieee.Default.Compat.Printer.{Printer}
use libieee.Default.EcpRead.{await_nack}
use libieee.Default.EcpRead.Bounds.{Offers}
use libieee.Default.EcpWrite.Recovery.{Calm, Patient}
use libieee.Port.Clock.{Clock}
use libieee.Port.Delay.{Advances, advancing-Waits}
use libieee.Port.Machine.{Machine, Phase}
use libieee.Port.Methods.{Pins}
use libieee.Port.Quiet.{QuietData, QuietPins, Waits}
use libieee.Port.Returns.{Returns, returns}
use libieee.Port.Run.{ask, pure, put, skip}
use libieee.Tests.Sim.{sample_port, time_at}

pub record Bench : Type 0 where
  pub time : ℕ
  pub high : Bool
  pub data_lines : ℕ
  pub paper : List ℕ

abbrev pub bench_clock : Clock Bench
bench_clock = record {
  gettimeofday = λ w. (time_at w.time, record w { time = w.time + 1 });
  select = λ t w. record w { time = w.time + t.tv_sec * 1000000 + t.tv_usec };
}

-- A write of nStrobe: low latches the data lines, if it was high before.
abbrev set_strobe : Bool → Bench → Bench
set_strobe level w = if level then record w { high = true } else record {
  time = w.time;
  high = false;
  data_lines = w.data_lines;
  paper = if w.high then w.paper ++ w.data_lines ∷ [] else w.paper;
}

abbrev pub bench : Pins Bench
bench = record {
  read_data = some (pure (pos 0x41));
  write_data = λ byte. put (λ w. record w { data_lines = byte });
  data_dir = some (λ reverse. pure (pos 0));
  read_status = pure (pos 0x80);
  wait_status = λ mask val timeout. pure (pos 0);
  read_control = pure (pos 0);
  write_control = λ reg. put (set_strobe (meets reg Control.nstrobe));
  frob_control = λ mask val. skip;
}

abbrev pub on_bench : Machine Bench
on_bench = record {
  port = sample_port;
  filename = [];
  live = true;
  world = record { time = 0; high = true; data_lines = 0; paper = [] };
}

pub bench-QuietPins : QuietPins bench
bench-QuietPins = record {
  write_data = λ s byte. returns (record { same = refl });
  read_status = λ s. returns (record { same = refl });
  wait_status = λ s mask val. returns (record { same = refl });
  write_control = λ s reg. returns (record { same = refl });
  frob_control = λ s mask val. returns (record { same = refl });
}

pub bench-QuietData : QuietData bench
bench-QuietData = record {
  read_data = λ s. returns (record { same = refl });
  data_dir = λ s reverse. returns (record { same = refl });
}

pub bench-Offers : Offers bench 1
unfolding await_nack
bench-Offers s = returns (record { same = refl })

abbrev pub bench_printer : Printer bench_clock bench
bench_printer = record {
  strobe_high = λ w. w.high;
  lines = λ w. w.data_lines;
  latched = λ w. w.paper;
  wait_status = λ s mask val. returns (record { same = refl }, refl, refl);
  select = λ w t. (refl, refl, refl);
  write_data = λ s byte. returns (record { same = refl }, refl, refl, refl);
  lower = λ s reg low high. returns (record { same = refl }, rw low (rw high refl));
  raise = λ s reg up. returns (record { same = refl }, rw up refl, rw up refl);
}

pub bench-Advances : Advances bench_clock 1
bench-Advances = record {
  normal = λ w. omega arith;
  look = λ w. omega arith;
  goes_on = λ w. omega arith;
}

pub bench-Waits : Waits bench_clock 6 5
bench-Waits = advancing-Waits bench_clock 1 bench-Advances 6 5 (omega arith)

-- A peripheral that does not take a byte before it has been through a recovery: of two reads of the
-- status the first shows PError low, as long as it has patience, and the other shows it high.
pub record Stubborn : Type 0 where
  pub time : ℕ
  pub patience : ℕ
  pub recovered : Bool

abbrev pub stubborn_clock : Clock Stubborn
stubborn_clock = record {
  gettimeofday = λ w. (time_at w.time, record w { time = w.time + 1 });
  select = λ t w. record w { time = w.time + t.tv_sec * 1000000 + t.tv_usec };
}

abbrev see_status : Stubborn → ℤ × Stubborn
see_status w =
    if w.recovered || w.patience == 0
    then (pos 0xa0, record w { recovered = false })
    else (pos 0x80, record w { patience = w.patience - 1; recovered = true })

abbrev busy_after : Stubborn → ℤ × Stubborn
busy_after w = (if w.patience == 0 then pos 0 else negsuc 0, w)

abbrev pub stubborn : Pins Stubborn
stubborn = record {
  read_data = none;
  write_data = λ byte. skip;
  data_dir = none;
  read_status = ask see_status;
  wait_status = λ mask val timeout. ask busy_after;
  read_control = pure (pos 0);
  write_control = λ reg. skip;
  frob_control = λ mask val. skip;
}

abbrev pub at_stubborn : Machine Stubborn
at_stubborn = record {
  port = record sample_port { current_phase = Phase.fwd_idle };
  filename = [];
  live = true;
  world = record { time = 0; patience = 2; recovered = false };
}

stubborn-Advances : Advances stubborn_clock 1
stubborn-Advances = record {
  normal = λ w. omega arith;
  look = λ w. omega arith;
  goes_on = λ w. omega arith;
}

pub stubborn-Waits : Waits stubborn_clock 51 50
stubborn-Waits = advancing-Waits stubborn_clock 1 stubborn-Advances 51 50 (omega arith)

see_status-Calm :
    (s : Machine Stubborn)
    → Returns
        (λ r t.
          Calm (λ w. w.patience) s t
          × (meets (to_byte r) Status.perror ≡ false → t.world.patience < s.world.patience))
        (ask see_status s)
see_status-Calm s = elim (Bool-cases (s.world.recovered || s.world.patience == 0)) [
  | inl high ↦ rw high (returns ((record { same = refl }, omega arith), λ low. absurd (cc)))
  | inr not_yet ↦ rw not_yet (
      let some_left : 0 < s.world.patience = ground (arith, not_yet) in
      returns ((record { same = refl }, omega arith), λ low. omega (arith, some_left)))
]

pub stubborn-Patient : Patient stubborn stubborn_clock (λ w. w.patience)
stubborn-Patient = record {
  write_data = λ s byte. returns (record { same = refl }, omega arith);
  frob_control = λ s mask val. returns (record { same = refl }, omega arith);
  wait_status = λ s mask val. returns (record { same = refl }, omega arith);
  read_status = see_status-Calm;
  look = λ w. omega arith;
}
