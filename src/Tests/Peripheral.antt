-- ===== src/Tests/Peripheral.antt =====
-- A peripheral that serves byte mode and ECP, and a negotiation with it.
use libieee.Port.Control
use libieee.Port.E1284
use libieee.Port.Mode
use libieee.Common.{
  ==_iff, Bool, Bool-cases, [], false, if◌then◌else◌, inl, inr, none, pos, refl, to_byte, true, ℕ,
  ◌==◌, ◌||◌, ◌∩◌, ◌≡◌,
}
use libieee.Default.Link.{default_negotiate, request, set_mode}
use libieee.Default.Link.Peripheral.{
  Answered, Stage, Wired, Wires, after_1, after_3, after_31, after_6, before_1, frob_wires, serves,
  shown, xflag,
}
use libieee.Default.Link.Peripheral.Events.{negotiate-Answered}
use libieee.Default.Link.Session.{Terminates}
use libieee.Port.Clock.{Clock}
use libieee.Port.Machine.{Machine}
use libieee.Port.Methods.{Pins}
use libieee.Port.Returns.{Returns, returns}
use libieee.Port.Run.{ask, put}
use libieee.Tests.Sim.{sample_port, time_at}

abbrev byte_and_ecp : ℕ → Bool
byte_and_ecp e = e == Mode.byte || e == Mode.ecp

abbrev still_clock : Clock Wires
still_clock = record { gettimeofday = λ w. (time_at 0, w); select = λ t w. w }

abbrev status_shown : Wires → ℕ
status_shown w = shown byte_and_ecp w.stage

abbrev wired_pins : Pins Wires
wired_pins = record {
  read_data = none;
  write_data = λ byte. put (λ w. record w { data_lines = byte });
  data_dir = none;
  read_status = ask (λ w. (pos (status_shown w), w));
  wait_status = λ mask val timeout.
      ask (λ w. (if status_shown w ∩ mask == val then E1284.ok else E1284.timedout, w));
  read_control = ask (λ w. (pos w.lines, w));
  write_control = λ reg. put (frob_wires Control.pins reg);
  frob_control = λ mask val. put (frob_wires mask val);
}

shown-lt : (stage : Stage) → to_byte (pos (shown byte_and_ecp stage)) ≡ shown byte_and_ecp stage
shown-lt before_1 = refl
shown-lt after_1 = refl
shown-lt (after_3 e) = refl
shown-lt (after_6 e) = elim (Bool-cases (xflag byte_and_ecp e)) [
  | inl h ↦ rw h refl
  | inr h ↦ rw h refl
]
shown-lt (after_31 e) = elim (Bool-cases (xflag byte_and_ecp e)) [
  | inl h ↦ rw h refl
  | inr h ↦ rw h refl
]

wired_pins-Wired : Wired (λ w. w) byte_and_ecp still_clock wired_pins
wired_pins-Wired = record {
  write_data = λ s byte. returns (record { same = refl }, refl);
  frob_control = λ s mask val. returns (record { same = refl }, refl);
  wait_status = λ s mask val h.
      returns
        (record { same = refl }, refl, rw ((==_iff (status_shown s.world ∩ mask) val).1 h) refl);
  read_status = λ s. returns (record { same = refl }, refl, shown-lt s.world.stage);
  select = λ w t. refl;
}

abbrev wired_sample : Machine Wires
wired_sample = record {
  port = sample_port;
  filename = [];
  live = true;
  world = record { lines = 0x07; data_lines = 0; stage = before_1 };
}

to_compat-Terminates : Terminates (set_mode {W = Wires} Mode.compat)
to_compat-Terminates = λ s. returns refl

-- ECP is served, EPP is not.
served_modes : (serves byte_and_ecp Mode.ecp ≡ true) × (serves byte_and_ecp Mode.eppsl ≡ false)
unfolding request
served_modes = (refl, refl)

negotiate-Answered_example :
    Returns
      (Answered (serves byte_and_ecp Mode.ecp) Mode.ecp)
      (default_negotiate wired_pins still_clock (set_mode Mode.compat) Mode.ecp wired_sample)
negotiate-Answered_example =
    negotiate-Answered wired_pins-Wired to_compat-Terminates Mode.ecp wired_sample refl refl refl
